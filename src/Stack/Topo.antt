-- ===== src/Stack/Topo.antt =====
-- The start order of a stack: `topoSort` of lib/stack_pure.h. The vectors `inDeg` and `adj` are
-- functions of the position, the queue and the map of names are lists. A degree is unsigned: the
-- test that it falls to 0 is that it was 1, which a degree that has passed below 0 never is again.
mod Names
mod Degrees
mod Scheduled
pub mod Rounds
mod Release
pub mod Errors
pub mod Finished
pub mod Order
use crate.Base.{
  List, Option, Result, Text, [], err, fail_if, if◌then◌else◌, is_there, length, none, not, ok,
  some, suc, text_eq, zero, ℕ, ◌++◌, ◌-◌, ◌==◌, ◌>>=◌, ◌>>◌, ◌∷◌,
}

pub record StackEntry : Type 0 where
  pub name : Text
  pub depends : List Text

pub data TopoError : Type 0 where
  duplicate_name : Text → TopoError
  unknown_dep : Text → Text → TopoError
  circular : TopoError
  out_of_fuel : TopoError

abbrev pub NameIdx : Type 0
NameIdx = List (Text × ℕ)

unfoldable pub index_of : Text → NameIdx → Option ℕ
index_of t [] = none
index_of t ((s, i) ∷ idx) = if text_eq s t then some i else index_of t idx

-- `nameIdx[d]`, which makes a 0 for a missing key.
abbrev pub or_zero : Option ℕ → ℕ
or_zero none = 0
or_zero (some i) = i

unfoldable pub position : NameIdx → Text → ℕ
unfolding index_of
position idx d = or_zero (index_of d idx)

-- `entries[i]` of the entries from position `k` on; no entry has no dependencies.
unfoldable pub entry_from : ℕ → List StackEntry → ℕ → StackEntry
entry_from k [] i = record { name = []; depends = [] }
entry_from k (e ∷ es) i = if k == i then e else entry_from (suc k) es i

-- The first loop.
unfoldable pub add_names : ℕ → List StackEntry → NameIdx → Result TopoError NameIdx
unfolding index_of
add_names k [] idx = ok idx
add_names k (e ∷ es) idx = do
  fail_if (is_there (index_of e.name idx)) (duplicate_name e.name)
  add_names (suc k) es ((e.name, k) ∷ idx)

-- The second loop and its inner one.
unfoldable pub check_deps : NameIdx → Text → List Text → Result TopoError (Unit {0})
unfolding index_of
check_deps idx name [] = ok tt
check_deps idx name (d ∷ ds) = do
  fail_if (not (is_there (index_of d idx))) (unknown_dep name d)
  check_deps idx name ds

unfoldable pub check_all_deps : NameIdx → List StackEntry → Result TopoError (Unit {0})
unfolding check_deps
check_all_deps idx [] = ok tt
check_all_deps idx (e ∷ es) = do check_deps idx e.name e.depends; check_all_deps idx es

-- `v[i] = x`.
unfoldable pub update {ℓ} : {A : Type ℓ} → (ℕ → A) → ℕ → A → ℕ → A
update f i x j = if i == j then x else f j

pub record Edges : Type 0 where
  pub adj : ℕ → List ℕ
  pub in_deg : ℕ → ℕ

abbrev pub no_edges : Edges
no_edges = record { adj = λ _. []; in_deg = λ _. 0 }

-- The third loop: the dependencies of the entry at `i`, then all entries.
unfoldable pub add_edges : NameIdx → ℕ → List Text → Edges → Edges
unfolding update position
add_edges idx i [] g = g
add_edges idx i (d ∷ ds) g = add_edges idx i ds (record {
  adj = update g.adj (position idx d) (g.adj (position idx d) ++ i ∷ []);
  in_deg = update g.in_deg i (suc (g.in_deg i));
})

unfoldable pub edges_from : NameIdx → ℕ → List StackEntry → Edges → Edges
unfolding add_edges
edges_from idx k [] g = g
edges_from idx k (e ∷ es) g = edges_from idx (suc k) es (add_edges idx k e.depends g)

-- The positions below `n` whose degree is 0, in order.
unfoldable pub ready : ℕ → (ℕ → ℕ) → List ℕ
ready zero deg = []
ready (suc n) deg = ready n deg ++ (if deg n == 0 then n ∷ [] else [])

pub record Search : Type 0 where
  pub pending : List ℕ
  pub degree : ℕ → ℕ
  pub sorted : List StackEntry

-- The body of the inner loop: a degree that falls to 0 queues its position.
unfoldable pub release_one : Search → ℕ → Search
unfolding update
release_one s next = record {
  pending = if s.degree next == 1 then s.pending ++ next ∷ [] else s.pending;
  degree = update s.degree next (s.degree next - 1);
  sorted = s.sorted;
}

unfoldable pub release_all : Search → List ℕ → Search
unfolding release_one
release_all s [] = s
release_all s (next ∷ ns) = release_all (release_one s next) ns

-- One round of the `while` loop, after `cur` has left the queue.
unfoldable pub round : List StackEntry → Edges → Search → ℕ → List ℕ → Search
unfolding release_all entry_from
round es g s cur rest =
    release_all
      (record { pending = rest; degree = s.degree; sorted = s.sorted ++ entry_from 0 es cur ∷ [] })
      (g.adj cur)

unfoldable pub queue_loop :
    List StackEntry → Edges → ℕ → Search → Result TopoError (List StackEntry)
unfolding round
queue_loop es g zero s = elim s.pending [ [] ↦ ok s.sorted | _ ∷ _ ↦ err out_of_fuel ]
queue_loop es g (suc fuel) s = elim s.pending [
  | [] ↦ ok s.sorted
  | cur ∷ rest ↦ queue_loop es g fuel (round es g s cur rest)
]

unfoldable pub start : ℕ → Edges → Search
unfolding ready
start n g = record { pending = ready n g.in_deg; degree = g.in_deg; sorted = [] }

-- A round takes one position off the queue, and each enters it once: `length entries` rounds do.
unfoldable pub topo_sort : List StackEntry → Result TopoError (List StackEntry)
unfolding add_names check_all_deps edges_from queue_loop start
topo_sort es = do
  idx ← add_names 0 es []
  check_all_deps idx es
  let g = edges_from idx 0 es no_edges
  sorted ← queue_loop es g (length es) (start (length es) g)
  fail_if (not (length sorted == length es)) circular
  ok sorted
