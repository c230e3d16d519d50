-- ===== src/Stack/Topo/Rounds.antt =====
-- The rounds of the `while` loop of `topoSort`, on a stack whose names and dependencies are known.
use crate.Base.{
  &&_elim, Bool, List, Option-cases, Text, [], all, any, ap, append-nil, append_assoc, arith,
  dec_lt, has, inl, inr, is_there, length, length-append, ltb, lt→ltb, map, ok, refl, subst, suc,
  sym, text_eq, text_eq_refl, true, zero, ℕ, ℕ_discrete, ◌&&◌, ◌++◌, ◌+◌, ◌∙◌, ◌∷◌, ◌≡◌, ◌≤◌, ◌⊎◌,
}
use crate.Stack.Topo.{
  StackEntry, NameIdx, Edges, Search, no_edges, index_of, position, entry_from, add_names,
  check_all_deps, edges_from, round, queue_loop, release_all, or_zero, release_one,
}
use crate.Stack.Topo.Names.{names_sound, check_all_deps-known, all_known}
use crate.Stack.Topo.Degrees.{count, deps_from, deps_from-above, adj_lem}
use crate.Stack.Topo.Scheduled.{all_of_count, blocked}
use crate.Stack.Topo.Release.{Inv, Inv-pop, Inv-head, Inv-release_all}

-- Some entry has this name.
abbrev pub is_named : Text → List StackEntry → Bool
is_named d = any (λ e. text_eq d e.name)

-- Each entry comes after those that it depends on; `seen` stands in front.
unfoldable pub deps_first : List StackEntry → List StackEntry → Bool
deps_first seen [] = true
deps_first seen (e ∷ es) = all (λ d. is_named d seen) e.depends && deps_first (seen ++ e ∷ []) es

deps_first-snoc :
    (seen xs : List StackEntry) (e : StackEntry)
    → deps_first seen xs ≡ true
    → all (λ d. is_named d (seen ++ xs)) e.depends ≡ true
    → deps_first seen (xs ++ e ∷ []) ≡ true
unfolding deps_first
deps_first-snoc seen [] e h k =
    ground (arith, ap (λ ys. all (λ d. is_named d ys) e.depends) (append-nil seen))
deps_first-snoc seen (x ∷ xs) e h k =
    let (first, rest) =
      &&_elim (all (λ d. is_named d seen) x.depends) (deps_first (seen ++ x ∷ []) xs) h in
    rw first (
      deps_first-snoc (seen ++ x ∷ []) xs e rest
        (ap (λ ys. all (λ d. is_named d ys) e.depends) (append_assoc seen (x ∷ []) xs) ∙ k))

is_named-map :
    (es : List StackEntry) (is : List ℕ) (j : ℕ)
    → has j is ≡ true
    → is_named (entry_from 0 es j).name (map (entry_from 0 es) is) ≡ true
is_named-map es [] j h = cc
is_named-map es (i ∷ is) j h = elim (ℕ_discrete i j) [
  | yes e ↦
      subst (λ i. is_named (entry_from 0 es j).name (map (entry_from 0 es) (i ∷ is)) ≡ true) (sym e)
        (ground (arith, text_eq_refl (entry_from 0 es j).name))
  | no ne ↦ ground (arith, is_named-map es is j)
]

map-snoc :
    {A B : Type 0} (f : A → B) (xs : List A) (x : A) → map f (xs ++ x ∷ []) ≡ map f xs ++ f x ∷ []
map-snoc f [] x = refl
map-snoc f (y ∷ xs) x = ap (◌∷◌ (f y)) (map-snoc f xs x)

release_all-sorted : (s : Search) (ns : List ℕ) → (release_all s ns).sorted ≡ s.sorted
unfolding release_all
release_all-sorted s [] = refl
release_all-sorted s (n ∷ ns) = release_all-sorted (release_one s n) ns

List-cases : {A : Type 0} (xs : List A) → (xs ≡ []) ⊎ ((x : A) × (ys : List A) × (xs ≡ x ∷ ys))
List-cases [] = inl refl
List-cases (x ∷ xs) = inr (x, xs, refl)

module _ (es : List StackEntry) (idx : NameIdx) (named : add_names 0 es [] ≡ ok idx)
    (known : check_all_deps idx es ≡ ok tt) where
  abbrev pub graph : Edges
  graph = edges_from idx 0 es no_edges

  abbrev pub deps : ℕ → List ℕ
  deps = deps_from idx 0 es

  named_at :
      (is : List ℕ) (d : Text)
      → is_there (index_of d idx) ≡ true
      → has (position idx d) is ≡ true
      → is_named d (map (entry_from 0 es) is) ≡ true
  unfolding position index_of
  named_at is d there h = elim (Option-cases (index_of d idx)) [
    | inl gone ↦ cc
    | inr (j, e) ↦ elim (names_sound 0 es [] idx d j named e) [
      | inl old ↦ cc
      | inr (_, _, n) ↦
          subst (λ t. is_named t (map (entry_from 0 es) is) ≡ true) n
            (is_named-map es is j (ap (λ o. has (or_zero o) is) (sym e) ∙ h))
    ]
  ]

  all_named :
      (is : List ℕ) (ds : List Text)
      → all_known idx ds ≡ true
      → all (λ j. has j is) (map (position idx) ds) ≡ true
      → all (λ d. is_named d (map (entry_from 0 es) is)) ds ≡ true
  unfolding index_of
  all_named is [] k h = refl
  all_named is (d ∷ ds) k h = ground (arith, named_at is d, all_named is ds)

  -- Between rounds: the sorted entries are those at positions whose counts fit.
  pub record LoopInv (started : List ℕ) (s : Search) : Type 0 where
    pub counts : Inv deps (length es) started s.pending [] s.degree
    pub entries : s.sorted ≡ map (entry_from 0 es) started
    pub in_order : deps_first [] s.sorted ≡ true

  adj-in_range : (cur : ℕ) → all (λ i. ltb i (length es)) (graph.adj cur) ≡ true
  unfolding count edges_from entry_from
  adj-in_range cur =
      all_of_count (λ i. ltb i (length es)) (graph.adj cur)
        (λ i c. elim (dec_lt i (length es)) [
          | yes below ↦ lt→ltb i (length es) below
          | no above ↦
              let none_at = deps_from-above idx 0 es i (omega arith) in
              absurd (omega (arith, adj_lem idx es cur i, ap (count cur) none_at))
        ])

  LoopInv-round :
      (started : List ℕ) (s : Search) (cur : ℕ) (rest : List ℕ)
      → s.pending ≡ cur ∷ rest
      → LoopInv started s
      → LoopInv (started ++ cur ∷ []) (round es graph s cur rest)
  unfolding round
  LoopInv-round started s cur rest e inv =
      let counts = subst (λ ps. Inv deps (length es) started ps [] s.degree) e inv.counts in
      let (_, behind) = Inv-head deps (length es) started rest cur s.degree counts in
      let popped =
        Inv-pop deps (length es) started rest (graph.adj cur) cur s.degree counts
          (adj_lem idx es cur) (adj-in_range cur) in
      let sorted' = s.sorted ++ entry_from 0 es cur ∷ [] in
      let s' : Search = record { pending = rest; degree = s.degree; sorted = sorted' } in
      let same = release_all-sorted s' (graph.adj cur) in
      record {
        counts = Inv-release_all deps (length es) (started ++ cur ∷ []) (graph.adj cur) s' popped;
        entries =
            same
            ∙ ap (λ xs. xs ++ entry_from 0 es cur ∷ []) inv.entries
            ∙ sym (map-snoc (entry_from 0 es) started cur);
        in_order =
            ap (deps_first []) same
            ∙ deps_first-snoc [] s.sorted (entry_from 0 es cur) inv.in_order (
                ap (λ xs. all (λ d. is_named d xs) (entry_from 0 es cur).depends) inv.entries
                ∙ all_named started (entry_from 0 es cur).depends
                    (check_all_deps-known idx 0 es cur tt known) behind);
      }

  -- The loop ends within as many rounds as positions are still to be started, and what it returns
  -- fits.
  pub queue_loop_ends :
      (fuel : ℕ) (started : List ℕ) (s : Search)
      → LoopInv started s
      → blocked (length es) s.degree + length s.pending ≤ fuel
      → (last : List ℕ) × (t : Search) × LoopInv last t
        × (t.pending ≡ [])
        × (queue_loop es graph fuel s ≡ ok t.sorted)
  unfolding queue_loop
  queue_loop_ends zero started s inv h = elim (List-cases s.pending) [
    | inl e ↦ (started, s, inv, e, rw (e, queue_loop) refl)
    | inr (cur, rest, e) ↦ absurd (omega (arith, ap length e))
  ]
  queue_loop_ends (suc fuel) started s inv h = elim (List-cases s.pending) [
    | inl e ↦ (started, s, inv, e, rw (e, queue_loop) refl)
    | inr (cur, rest, e) ↦
        let inv' = LoopInv-round started s cur rest e inv in
        let before = inv.counts.size in
        let after = inv'.counts.size in
        let (last, t, fits, done, ends) =
          queue_loop_ends fuel (started ++ cur ∷ []) (round es graph s cur rest) inv'
            (omega (arith, before, after, length-append started (cur ∷ []))) in
        (last, t, fits, done, rw (e, queue_loop) ends)
  ]
