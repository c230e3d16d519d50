-- ===== src/Stack/Topo/Errors.antt =====
-- The first two loops of `topoSort` fail only for what their messages say.
use mathlib.Core.List.{Memᴰ}
use crate.Base.{
  Bool-cases, List, Option-cases, Result-cases, Text, [], ap, arith, err, false, if◌then◌else◌, inl,
  inr, is_there, length, none, refl, some, suc, sym, text_eq, text_eq_refl, text_eq→eq, true, ℕ,
  ◌+◌, ◌<◌, ◌∙◌, ◌∷◌, ◌≡◌, ◌≤◌,
}
use crate.Stack.Topo.{
  StackEntry, TopoError, NameIdx, duplicate_name, unknown_dep, index_of, entry_from, add_names,
  check_deps, check_all_deps,
}
use crate.Stack.Topo.Names.{entry_from-here, entry_from-later}
use crate.Stack.Topo.Rounds.{is_named}

-- How many entries have a name.
unfoldable pub named_times : Text → List StackEntry → ℕ
named_times t [] = 0
named_times t (e ∷ es) = let rest = named_times t es in if text_eq e.name t then suc rest else rest

pub add_names-err :
    (k : ℕ) (es seen : List StackEntry) (idx : NameIdx) (e : TopoError)
    → ((t : Text) → is_there (index_of t idx) ≡ true → 1 ≤ named_times t seen)
    → add_names k es idx ≡ err e
    → (t : Text) × (e ≡ duplicate_name t) × (2 ≤ named_times t seen + named_times t es)
unfolding add_names index_of named_times
add_names-err k [] seen idx e old h = cc
add_names-err k (x ∷ es) seen idx e old h = elim (Bool-cases (is_there (index_of x.name idx))) [
  | inl there ↦ (x.name, cc, ground (arith, old x.name there, text_eq_refl x.name))
  | inr fresh ↦
      let (t, what, twice) =
        add_names-err (suc k) es (x ∷ seen) ((x.name, k) ∷ idx) e (λ t there. ground (arith, old t))
          (ground arith) in
      (t, what, ground (arith, twice))
]

pub check_deps-err :
    (idx : NameIdx) (n : Text) (ds : List Text) (e : TopoError)
    → check_deps idx n ds ≡ err e
    → (d : Text) × Memᴰ d ds × (e ≡ unknown_dep n d) × (index_of d idx ≡ none)
unfolding check_deps
check_deps-err idx n [] e h = cc
check_deps-err idx n (d ∷ ds) e h = elim (Option-cases (index_of d idx)) [
  | inl gone ↦ (d, Memᴰ.head refl, cc, gone)
  | inr (i, there) ↦
      let (c, m, what, gone) = check_deps-err idx n ds e (rw there at h) in
      (c, Memᴰ.tail m, what, gone)
]

pub check_all_deps-err :
    (idx : NameIdx) (es : List StackEntry) (e : TopoError)
    → check_all_deps idx es ≡ err e
    → (x : StackEntry) × (d : Text) × Memᴰ x es
      × Memᴰ d x.depends
      × (e ≡ unknown_dep x.name d)
      × (index_of d idx ≡ none)
unfolding check_all_deps
check_all_deps-err idx [] e h = cc
check_all_deps-err idx (x ∷ es) e h = elim (Result-cases (check_deps idx x.name x.depends)) [
  | inl (e', first) ↦
      let (d, m, what, gone) = check_deps-err idx x.name x.depends e cc in
      (x, d, Memᴰ.head refl, m, what, gone)
  | inr (u, first) ↦
      let (y, d, m, m', what, gone) = check_all_deps-err idx es e (rw first at h) in
      (y, d, Memᴰ.tail m, m', what, gone)
]

-- A name that the map does not hold is the name of no entry.
pub is_named-none :
    (k : ℕ) (es : List StackEntry) (idx : NameIdx) (d : Text)
    → ((i : ℕ) → k ≤ i → i < k + length es → index_of (entry_from k es i).name idx ≡ some i)
    → index_of d idx ≡ none
    → is_named d es ≡ false
is_named-none k [] idx d holds gone = refl
is_named-none k (x ∷ es) idx d holds gone = ground (
  arith,
  holds_here,
  is_named-none (suc k) es idx d (λ i lo hi.
      ap (λ y. index_of y.name idx) (sym (entry_from-later k i x es (λ e. absurd (omega arith))))
      ∙ holds i (omega arith) (omega arith)),
)
  where
    holds_here : text_eq d x.name ≡ false
    holds_here = elim (Bool-cases (text_eq d x.name)) [
      | inl e ↦
          let same = text_eq→eq d x.name e in
          let there = holds k (omega arith) (omega arith) in let here = entry_from-here k x es in cc
      | inr e ↦ e
    ]
