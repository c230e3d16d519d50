-- ===== src/Stack/Topo/Degrees.antt =====
-- The third loop of `topoSort`: the degree of a position is the number of its dependencies, and it
-- stands in `adj` of each as often as it depends on it.
use crate.Base.{
  List, Text, [], ap, arith, if◌then◌else◌, length, length-map, map, refl, subst, suc, ℕ,
  ℕ_discrete, ◌++◌, ◌+◌, ◌<◌, ◌==◌, ◌∙◌, ◌∷◌, ◌≡◌, ◌≢◌, ◌≤◌,
}
use crate.Stack.Topo.{
  StackEntry, NameIdx, Edges, no_edges, update, position, entry_from, add_edges, edges_from,
}
use crate.Stack.Topo.Names.{entry_from-here, entry_from-later}

-- How often a number occurs.
unfoldable pub count : ℕ → List ℕ → ℕ
count a [] = 0
count a (b ∷ bs) = let rest = count a bs in if b == a then suc rest else rest

abbrev pub deps_from : NameIdx → ℕ → List StackEntry → ℕ → List ℕ
deps_from idx k es i = map (position idx) (entry_from k es i).depends

pub count-append : (a : ℕ) (xs ys : List ℕ) → count a (xs ++ ys) ≡ count a xs + count a ys
unfolding count
count-append a [] ys = omega arith
count-append a (x ∷ xs) ys = ground (arith, count-append a xs ys)

pub update-at {ℓ} : {A : Type ℓ} (f : ℕ → A) (i : ℕ) (x : A) → update f i x i ≡ x
unfolding update
update-at f i x = ground arith

pub update-other {ℓ} :
    {A : Type ℓ} (f : ℕ → A) (i : ℕ) (x : A) (j : ℕ) → i ≢ j → update f i x j ≡ f j
unfolding update
update-other f i x j ne = ground arith

abbrev if_at : ℕ → ℕ → ℕ → ℕ
if_at i j n = if i == j then n else 0

add_edges-in_deg :
    (idx : NameIdx) (i : ℕ) (ds : List Text) (g : Edges) (j : ℕ)
    → (add_edges idx i ds g).in_deg j ≡ g.in_deg j + if_at i j (length ds)
unfolding add_edges update
add_edges-in_deg idx i [] g j = ground arith
add_edges-in_deg idx i (d ∷ ds) g j = ground (
  arith,
  add_edges-in_deg idx i ds
      (record {
        adj = update g.adj (position idx d) (g.adj (position idx d) ++ i ∷ []);
        in_deg = update g.in_deg i (suc (g.in_deg i));
      })
      j,
)

count-update :
    (f : ℕ → List ℕ) (p i q j : ℕ)
    → count j (update f p (f p ++ i ∷ []) q) ≡ count j (f q) + (if p == q then if_at i j 1 else 0)
unfolding update count
count-update f p i q j = elim (ℕ_discrete p q) [
  | yes e ↦ ground (arith, count-append j (f p) (i ∷ []), ap f e)
  | no ne ↦ ground arith
]

add_edges-adj :
    (idx : NameIdx) (i : ℕ) (ds : List Text) (g : Edges) (q j : ℕ)
    → count j ((add_edges idx i ds g).adj q)
      ≡ count j (g.adj q) + if_at i j (count q (map (position idx) ds))
unfolding add_edges update count
add_edges-adj idx i [] g q j = ground arith
add_edges-adj idx i (d ∷ ds) g q j = ground (
  arith,
  count-update g.adj (position idx d) i q j,
  add_edges-adj idx i ds
      (record {
        adj = update g.adj (position idx d) (g.adj (position idx d) ++ i ∷ []);
        in_deg = update g.in_deg i (suc (g.in_deg i));
      })
      q j,
)

pub deps_from-below :
    (idx : NameIdx) (k : ℕ) (es : List StackEntry) (i : ℕ) → i < k → deps_from idx k es i ≡ []
unfolding entry_from
deps_from-below idx k [] i h = refl
deps_from-below idx k (e ∷ es) i h =
    ap (λ y. map (position idx) y.depends) (entry_from-later k i e es (λ e. absurd (omega arith)))
    ∙ deps_from-below idx (suc k) es i (omega arith)

pub deps_from-above :
    (idx : NameIdx) (k : ℕ) (es : List StackEntry) (i : ℕ)
    → k + length es ≤ i
    → deps_from idx k es i ≡ []
unfolding entry_from
deps_from-above idx k [] i h = refl
deps_from-above idx k (e ∷ es) i h =
    ap (λ y. map (position idx) y.depends) (entry_from-later k i e es (λ e. absurd (omega arith)))
    ∙ deps_from-above idx (suc k) es i (omega arith)

-- The dependencies of the first entry are added at its position, and no other there.
deps_from-cons :
    (idx : NameIdx) (k : ℕ) (e : StackEntry) (es : List StackEntry) (i : ℕ) (f : List ℕ → ℕ)
    → f [] ≡ 0
    → f (deps_from idx k (e ∷ es) i)
      ≡ if_at k i (f (map (position idx) e.depends)) + f (deps_from idx (suc k) es i)
deps_from-cons idx k e es i f z = elim (ℕ_discrete k i) [
  | yes at ↦
      subst
        (λ i.
          f (deps_from idx k (e ∷ es) i)
          ≡ if_at k i (f (map (position idx) e.depends)) + f (deps_from idx (suc k) es i))
        at
        (ground (
          arith,
          ap (λ y. f (map (position idx) y.depends)) (entry_from-here k e es),
          ap f (deps_from-below idx (suc k) es k (omega arith)),
        ))
  | no ne ↦
      ground (arith, ap (λ y. f (map (position idx) y.depends)) (entry_from-later k i e es ne))
]

edges_from-in_deg :
    (idx : NameIdx) (k : ℕ) (es : List StackEntry) (g : Edges) (i : ℕ)
    → (edges_from idx k es g).in_deg i ≡ g.in_deg i + length (deps_from idx k es i)
unfolding edges_from entry_from
edges_from-in_deg idx k [] g i = omega arith
edges_from-in_deg idx k (e ∷ es) g i =
    let whole = deps_from-cons idx k e es i length refl in
    omega (
      arith,
      edges_from-in_deg idx (suc k) es (add_edges idx k e.depends g) i,
      add_edges-in_deg idx k e.depends g i,
      ap (if_at k i) (length-map (position idx) e.depends),
    )

edges_from-adj :
    (idx : NameIdx) (k : ℕ) (es : List StackEntry) (g : Edges) (q i : ℕ)
    → count i ((edges_from idx k es g).adj q) ≡ count i (g.adj q) + count q (deps_from idx k es i)
unfolding edges_from entry_from count
edges_from-adj idx k [] g q i = omega arith
edges_from-adj idx k (e ∷ es) g q i =
    let whole = deps_from-cons idx k e es i (count q) refl in
    omega (
      arith,
      edges_from-adj idx (suc k) es (add_edges idx k e.depends g) q i,
      add_edges-adj idx k e.depends g q i,
    )

-- The edges of a whole stack.
pub in_deg_lem :
    (idx : NameIdx) (es : List StackEntry) (i : ℕ)
    → (edges_from idx 0 es no_edges).in_deg i ≡ length (deps_from idx 0 es i)
in_deg_lem idx es i = omega (arith, edges_from-in_deg idx 0 es no_edges i)

pub adj_lem :
    (idx : NameIdx) (es : List StackEntry) (q i : ℕ)
    → count i ((edges_from idx 0 es no_edges).adj q) ≡ count q (deps_from idx 0 es i)
unfolding count
adj_lem idx es q i = omega (arith, edges_from-adj idx 0 es no_edges q i)
