-- ===== src/Stack/Topo/Order.antt =====
-- What `topoSort` returns, and when it fails.
use mathlib.Core.List.{Memᴰ}
use crate.Base.{
  Bool, Bool-cases, List, Result-cases, Text, [], all, ap, arith, err, err_injective, false, inl,
  inr, length, not, ok, ok_injective, refl, subst, sym, text_eq, text_eq_refl, text_eq→eq, true, ℕ,
  ◌&&◌, ◌==◌, ◌∙◌, ◌∷◌, ◌≡◌, ◌≢◌, ◌≤◌,
}
use crate.Stack.Topo.{
  StackEntry, TopoError, NameIdx, duplicate_name, unknown_dep, circular, out_of_fuel, index_of,
  add_names, check_all_deps, start, topo_sort,
}
use crate.Stack.Topo.Names.{names_hold}
use crate.Stack.Topo.Rounds.{is_named}
use crate.Stack.Topo.Errors.{named_times, add_names-err, check_all_deps-err, is_named-none}
use crate.Stack.Topo.Finished.{
  ranks, IsStartOrder, all-Memᴰ, loop_from_start, all_started-IsStartOrder, rank_fills,
}

-- What an error says of the stack.
unfoldable pub Explains : List StackEntry → TopoError → Type 0
Explains es (duplicate_name t) = 2 ≤ named_times t es
Explains es (unknown_dep n d) =
    (e : StackEntry) × Memᴰ e es × (e.name ≡ n) × Memᴰ d e.depends × (is_named d es ≡ false)
Explains es circular = (rank : Text → ℕ) → ranks rank es ≡ false
Explains es out_of_fuel = ⊥

-- No two entries have the same name.
unfoldable pub distinct_names : List StackEntry → Bool
distinct_names [] = true
distinct_names (e ∷ es) = not (is_named e.name es) && distinct_names es

named_times-other : (t : Text) (es : List StackEntry) → is_named t es ≡ false → named_times t es ≡ 0
unfolding named_times
named_times-other t [] h = refl
named_times-other t (e ∷ es) h = elim (Bool-cases (text_eq e.name t)) [
  | inl same ↦ let at = text_eq→eq e.name t same in let there = text_eq_refl t in cc
  | inr differ ↦ rw differ (named_times-other t es (ground arith))
]

named_times-distinct :
    (t : Text) (es : List StackEntry) → distinct_names es ≡ true → named_times t es ≤ 1
unfolding named_times distinct_names
named_times-distinct t [] h = omega arith
named_times-distinct t (e ∷ es) h = elim (Bool-cases (text_eq e.name t)) [
  | inl same ↦
      let at = text_eq→eq e.name t same in
      let fresh : is_named e.name es ≡ false = ground arith in
      rw same (omega (arith, named_times-other t es (ap (λ n. is_named n es) (sym at) ∙ fresh)))
  | inr differ ↦ rw differ (named_times-distinct t es (ground arith))
]

-- The three ways through `topoSort`.
pub data Run (es : List StackEntry) : Type 0 where
  stopped : (e : TopoError) → Explains es e → topo_sort es ≡ err e → Run es
  sorted : (out : List StackEntry) → IsStartOrder es out → topo_sort es ≡ ok out → Run es

loop-Run :
    (es : List StackEntry) (idx : NameIdx) (named : add_names 0 es [] ≡ ok idx)
    (known : check_all_deps idx es ≡ ok tt)
    → Run es
unfolding topo_sort start Explains
loop-Run es idx named known =
    let (last, t, inv, done, ends) = loop_from_start es idx named known in
    elim (Bool-cases (length t.sorted == length es)) [
      | inl full ↦
          sorted t.sorted
            (all_started-IsStartOrder es idx named known last t inv done (ground arith))
            (rw named (rw known (rw ends (rw full refl))))
      | inr short ↦
          stopped circular
            (λ rank. elim (Bool-cases (ranks rank es)) [
              | inl r ↦
                  absurd (ground (arith, rank_fills es idx named known rank last t r inv done))
              | inr r ↦ r
            ])
            (rw named (rw known (rw ends (rw short refl))))
    ]

nothing_named : (t : Text) → named_times t [] ≡ 0
unfolding named_times
nothing_named t = refl

topo_sort-Run : (es : List StackEntry) → Run es
unfolding topo_sort index_of Explains
topo_sort-Run es = elim (Result-cases (add_names 0 es [])) [
  | inl (e, first) ↦
      let (t, what, twice) = add_names-err 0 es [] [] e (λ t there. absurd cc) first in
      stopped e (subst (Explains es) (sym what) (omega (arith, twice, nothing_named t)))
        (rw first refl)
  | inr (idx, first) ↦ elim (Result-cases (check_all_deps idx es)) [
    | inl (e, second) ↦
        let (x, d, m, m', what, gone) = check_all_deps-err idx es e second in
        let unknown =
          is_named-none 0 es idx d (λ i lo hi. names_hold 0 es [] idx i first lo hi) gone in
        stopped e (subst (Explains es) (sym what) (x, m, refl, m', unknown))
          (rw first (rw second refl))
    | inr (tt, second) ↦ loop-Run es idx first second
  ]
]

-- The loop always ends by itself: it empties its queue within as many rounds as there are entries.
pub topo_sort_terminates : (es : List StackEntry) → topo_sort es ≢ err out_of_fuel
unfolding Explains
topo_sort_terminates es h = elim (topo_sort-Run es) [
  | stopped e why r ↦ subst (Explains es) (err_injective (sym r ∙ h)) why
  | sorted out good r ↦ cc
]

-- What the sort returns is the entries of the stack, each behind all those that it depends on.
pub topo_sort-IsStartOrder :
    (es out : List StackEntry) → topo_sort es ≡ ok out → IsStartOrder es out
topo_sort-IsStartOrder es out h = elim (topo_sort-Run es) [
  | stopped e why r ↦ cc
  | sorted out' good r ↦ subst (IsStartOrder es) (ok_injective (sym r ∙ h)) good
]

-- Each error means what it says: two entries have the name; the named entry depends on a name that
-- no entry has; no ranking of the names puts every dependency below the entry that needs it.
pub topo_sort-Explains :
    (es : List StackEntry) (e : TopoError) → topo_sort es ≡ err e → Explains es e
topo_sort-Explains es e h = elim (topo_sort-Run es) [
  | stopped e' why r ↦ subst (Explains es) (err_injective (sym r ∙ h)) why
  | sorted out good r ↦ cc
]

-- A stack whose names differ, whose dependencies are names of the stack and which some ranking
-- orders is sorted.
pub topo_sort_starts :
    (es : List StackEntry) (rank : Text → ℕ)
    → distinct_names es ≡ true
    → all (λ e. all (λ d. is_named d es) e.depends) es ≡ true
    → ranks rank es ≡ true
    → (out : List StackEntry) × (topo_sort es ≡ ok out) × IsStartOrder es out
unfolding Explains
topo_sort_starts es rank once here ranked = elim (topo_sort-Run es) [
  | sorted out good r ↦ (out, r, good)
  | stopped (duplicate_name t) why r ↦ absurd (omega (arith, named_times-distinct t es once, why))
  | stopped (unknown_dep n d) (e, m, _, m', gone) r ↦
      let all_here = all-Memᴰ (λ e. all (λ d. is_named d es) e.depends) es e here m in
      let clash = all-Memᴰ (λ d. is_named d es) e.depends d all_here m' in cc
  | stopped circular why r ↦ let clash = why rank in cc
  | stopped out_of_fuel why r ↦ absurd why
]
