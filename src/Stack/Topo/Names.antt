-- ===== src/Stack/Topo/Names.antt =====
-- What `nameIdx` holds after the first loop of `topoSort`, and what the second loop makes sure of.
use crate.Base.{
  >>=-eq-ok, Bool, Bool-cases, List, Option-cases, Text, [], all, ap, arith, inl, inr, is_there,
  length, none, ok, ok_injective, refl, some, subst, suc, sym, text_eq, text_eq_refl, text_eq→eq,
  true, ℕ, ℕ_discrete, ◌+◌, ◌<◌, ◌∙◌, ◌∷◌, ◌≡◌, ◌≢◌, ◌≤◌, ◌⊎◌,
}
use crate.Stack.Topo.{
  StackEntry, NameIdx, index_of, entry_from, add_names, check_deps, check_all_deps,
}

index_of_self : (t : Text) (k : ℕ) (idx : NameIdx) → index_of t ((t, k) ∷ idx) ≡ some k
unfolding index_of
index_of_self t k idx = rw (text_eq_refl t)

pub entry_from-here : (k : ℕ) (e : StackEntry) (es : List StackEntry) → entry_from k (e ∷ es) k ≡ e
unfolding entry_from
entry_from-here k e es = ground arith

pub entry_from-later :
    (k i : ℕ) (e : StackEntry) (es : List StackEntry)
    → k ≢ i
    → entry_from k (e ∷ es) i ≡ entry_from (suc k) es i
unfolding entry_from
entry_from-later k i e es ne = ground arith

index_of-cases :
    (t s : Text) (i : ℕ) (idx : NameIdx)
    → ((s ≡ t) × (index_of t ((s, i) ∷ idx) ≡ some i))
      ⊎ (index_of t ((s, i) ∷ idx) ≡ index_of t idx)
unfolding index_of
index_of-cases t s i idx = elim (Bool-cases (text_eq s t)) [
  | inl e ↦ inl (text_eq→eq s t e, rw e)
  | inr e ↦ inr (rw e)
]

add_names-step :
    (k : ℕ) (e : StackEntry) (es : List StackEntry) (idx idx' : NameIdx)
    → add_names k (e ∷ es) idx ≡ ok idx'
    → (index_of e.name idx ≡ none) × (add_names (suc k) es ((e.name, k) ∷ idx) ≡ ok idx')
unfolding add_names
add_names-step k e es idx idx' h = elim (Option-cases (index_of e.name idx)) [
  | inl n ↦ (n, (rw n at h))
  | inr (i, n) ↦ cc
]

pub names_keep :
    (k : ℕ) (es : List StackEntry) (idx idx' : NameIdx) (t : Text) (j : ℕ)
    → add_names k es idx ≡ ok idx'
    → index_of t idx ≡ some j
    → index_of t idx' ≡ some j
unfolding add_names
names_keep k [] idx idx' t j h e = ap (index_of t) (sym (ok_injective h)) ∙ e
names_keep k (x ∷ es) idx idx' t j h e =
    let (fresh, rest) = add_names-step k x es idx idx' h in
    names_keep (suc k) es ((x.name, k) ∷ idx) idx' t j rest
      (elim (index_of-cases t x.name k idx) [ inl (same, _) ↦ cc | inr old ↦ old ∙ e ])

pub names_hold :
    (k : ℕ) (es : List StackEntry) (idx idx' : NameIdx) (i : ℕ)
    → add_names k es idx ≡ ok idx'
    → k ≤ i
    → i < k + length es
    → index_of (entry_from k es i).name idx' ≡ some i
names_hold k [] idx idx' i h lo hi = absurd (omega arith)
names_hold k (x ∷ es) idx idx' i h lo hi =
    let (fresh, rest) = add_names-step k x es idx idx' h in
    elim (ℕ_discrete k i) [
      | yes e ↦
          subst (λ i. index_of (entry_from k (x ∷ es) i).name idx' ≡ some i) e
            (ap (λ y. index_of y.name idx') (entry_from-here k x es)
              ∙ names_keep (suc k) es ((x.name, k) ∷ idx) idx' x.name k rest
                  (index_of_self x.name k idx))
      | no ne ↦
          ap (λ y. index_of y.name idx') (entry_from-later k i x es ne)
          ∙ names_hold (suc k) es ((x.name, k) ∷ idx) idx' i rest (omega arith) (omega arith)
    ]

pub names_sound :
    (k : ℕ) (es : List StackEntry) (idx idx' : NameIdx) (t : Text) (j : ℕ)
    → add_names k es idx ≡ ok idx'
    → index_of t idx' ≡ some j
    → (index_of t idx ≡ some j) ⊎ ((k ≤ j) × (j < k + length es) × ((entry_from k es j).name ≡ t))
unfolding add_names
names_sound k [] idx idx' t j h e = inl (ap (index_of t) (ok_injective h) ∙ e)
names_sound k (x ∷ es) idx idx' t j h e =
    let (fresh, rest) = add_names-step k x es idx idx' h in
    elim (names_sound (suc k) es ((x.name, k) ∷ idx) idx' t j rest e) [
      | inl old ↦ elim (index_of-cases t x.name k idx) [
        | inl (same, here) ↦
            let at : k ≡ j = cc in
            inr (
              omega arith,
              omega arith,
              ap (λ i. (entry_from k (x ∷ es) i).name) (sym at)
                  ∙ ap (λ y. y.name) (entry_from-here k x es)
                  ∙ same,
            )
        | inr older ↦ inl (sym older ∙ old)
      ]
      | inr (lo, hi, n) ↦ inr (
        omega arith,
        omega arith,
        ap (λ y. y.name) (entry_from-later k j x es (λ e. absurd (omega arith))) ∙ n,
      )
    ]

-- Every text is a name of the map.
abbrev pub all_known : NameIdx → List Text → Bool
unfolding index_of
all_known idx = all (λ d. is_there (index_of d idx))

check_deps-known :
    (idx : NameIdx) (n : Text) (ds : List Text) (u : Unit {0})
    → check_deps idx n ds ≡ ok u
    → all_known idx ds ≡ true
unfolding check_deps
check_deps-known idx n [] u h = refl
check_deps-known idx n (d ∷ ds) u h = ground (arith, check_deps-known idx n ds u)

pub check_all_deps-known :
    (idx : NameIdx) (k : ℕ) (es : List StackEntry) (i : ℕ) (u : Unit {0})
    → check_all_deps idx es ≡ ok u
    → all_known idx (entry_from k es i).depends ≡ true
unfolding check_all_deps entry_from
check_all_deps-known idx k [] i u h = refl
check_all_deps-known idx k (e ∷ es) i u h =
    let (v, first, rest) =
      >>=-eq-ok (check_deps idx e.name e.depends) (λ _. check_all_deps idx es) h in
    elim (ℕ_discrete k i) [
      | yes at ↦
          subst (λ i. all_known idx (entry_from k (e ∷ es) i).depends ≡ true) at
            (ap (λ y. all_known idx y.depends) (entry_from-here k e es)
              ∙ check_deps-known idx e.name e.depends v first)
      | no ne ↦
          ap (λ y. all_known idx y.depends) (entry_from-later k i e es ne)
          ∙ check_all_deps-known idx (suc k) es i u rest
    ]
