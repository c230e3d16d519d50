-- ===== src/Stack/Topo/Finished.antt =====
-- The state in which the loop of `topoSort` ends.
use mathlib.Core.List.{Memᴰ}
use mathlib.Core.List.Memᴰ
use crate.Base.{
  &&_elim, Bool, List, Option-cases, Text, [], all, ap, append-nil, arith, has, inl, inr, is_there,
  length, length-map, ltb, ltb→lt, map, ok, refl, subst, suc, sym, true, zero, ℕ, ℕ_discrete, ◌++◌,
  ◌+◌, ◌<◌, ◌∙◌, ◌∷◌, ◌≡◌, ◌≤◌,
}
use crate.Stack.Topo.{
  Search, StackEntry, NameIdx, index_of, position, entry_from, add_names, check_all_deps,
  queue_loop, start, or_zero, Search,
}
use crate.Stack.Topo.Names.{
  names_sound, check_all_deps-known, all_known, entry_from-here, entry_from-later,
}
use crate.Stack.Topo.Degrees.{count, in_deg_lem, deps_from}
use crate.Stack.Topo.Scheduled.{has-append_left, blocked, none-blocked, none_missing, blocked-none}
use crate.Stack.Topo.Release.{Inv-start}
use crate.Stack.Topo.Rounds.{deps_first, LoopInv, queue_loop_ends, graph}

-- The dependencies of every entry rank below it.
abbrev pub ranks : (Text → ℕ) → List StackEntry → Bool
ranks rank es = all (λ e. all (λ d. ltb (rank d) (rank e.name)) e.depends) es

-- The same entries, in an order in which each follows its dependencies.
pub record IsStartOrder (es sorted : List StackEntry) : Type 0 where
  pub in_order : deps_first [] sorted ≡ true
  pub size : length sorted ≡ length es
  pub complete : (e : StackEntry) → Memᴰ e es → Memᴰ e sorted
  pub sound : (e : StackEntry) → Memᴰ e sorted → Memᴰ e es

pub all-Memᴰ :
    {A : Type 0} (p : A → Bool) (xs : List A) (x : A) → all p xs ≡ true → Memᴰ x xs → p x ≡ true
all-Memᴰ p [] x h m = absurd (Memᴰ.not-nil m)
all-Memᴰ p (y ∷ ys) x h m =
    let (first, rest) = &&_elim (p y) (all p ys) h in
    elim (Memᴰ.cases_cons m) [
      | inl same ↦ ap p same ∙ first
      | inr below ↦ all-Memᴰ p ys x rest below
    ]

entry_from-Memᴰ :
    (k i : ℕ) (es : List StackEntry) → k ≤ i → i < k + length es → Memᴰ (entry_from k es i) es
entry_from-Memᴰ k i [] lo hi = absurd (omega arith)
entry_from-Memᴰ k i (e ∷ es) lo hi = elim (ℕ_discrete k i) [
  | yes at ↦
      subst (λ i. Memᴰ (entry_from k (e ∷ es) i) (e ∷ es)) at (Memᴰ.head (entry_from-here k e es))
  | no ne ↦
      subst (λ x. Memᴰ x (e ∷ es)) (sym (entry_from-later k i e es ne))
        (Memᴰ.tail (entry_from-Memᴰ (suc k) i es (omega arith) (omega arith)))
]

Memᴰ-entry_from :
    (k : ℕ) (es : List StackEntry) (x : StackEntry)
    → Memᴰ x es
    → (i : ℕ) × (k ≤ i) × (i < k + length es) × (x ≡ entry_from k es i)
Memᴰ-entry_from k [] x m = absurd (Memᴰ.not-nil m)
Memᴰ-entry_from k (e ∷ es) x m = elim (Memᴰ.cases_cons m) [
  | inl same ↦ (k, omega arith, omega arith, same ∙ sym (entry_from-here k e es))
  | inr below ↦
      let (i, lo, hi, at) = Memᴰ-entry_from (suc k) es x below in
      (
        i,
        omega arith,
        omega arith,
        at ∙ sym (entry_from-later k i e es (λ e. absurd (omega arith))),
      )
]

Memᴰ-map_entries :
    (es : List StackEntry) (is : List ℕ) (x : StackEntry)
    → Memᴰ x (map (entry_from 0 es) is)
    → (i : ℕ) × (has i is ≡ true) × (x ≡ entry_from 0 es i)
Memᴰ-map_entries es [] x m = absurd (Memᴰ.not-nil m)
Memᴰ-map_entries es (i ∷ is) x m = elim (Memᴰ.cases_cons m) [
  | inl same ↦ (i, ground arith, same)
  | inr below ↦ let (j, h, at) = Memᴰ-map_entries es is x below in (j, ground arith, at)
]

map_entries-Memᴰ :
    (es : List StackEntry) (is : List ℕ) (i : ℕ)
    → has i is ≡ true
    → Memᴰ (entry_from 0 es i) (map (entry_from 0 es) is)
map_entries-Memᴰ es [] i h = cc
map_entries-Memᴰ es (j ∷ is) i h = elim (ℕ_discrete j i) [
  | yes at ↦ Memᴰ.head (ap (entry_from 0 es) (sym at))
  | no ne ↦ Memᴰ.tail (map_entries-Memᴰ es is i (ground arith))
]

module _ (es : List StackEntry) (idx : NameIdx) (named : add_names 0 es [] ≡ ok idx)
    (known : check_all_deps idx es ≡ ok tt) where
  -- The loop from its start.
  pub loop_from_start :
      (last : List ℕ) × (t : Search) × LoopInv es idx named known last t
      × (t.pending ≡ [])
      × (queue_loop es
            (graph es idx named known)
            (length es)
            (start (length es) (graph es idx named known))
          ≡ ok t.sorted)
  unfolding start deps_first
  loop_from_start =
      let counts =
        Inv-start (deps_from idx 0 es) (length es) (graph es idx named known).in_deg
          (in_deg_lem idx es) in
      queue_loop_ends es idx named known (length es) []
        (start (length es) (graph es idx named known))
        (record { counts = counts; entries = refl; in_order = refl }) (omega (arith, counts.size))

  has-last : (last ps : List ℕ) (i : ℕ) → ps ≡ [] → has i (last ++ ps) ≡ true → has i last ≡ true
  has-last last ps i done h = ap (has i) (sym (ap (λ qs. last ++ qs) done ∙ append-nil last)) ∙ h

  length-sorted :
      (last : List ℕ) (t : Search)
      → LoopInv es idx named known last t
      → length t.sorted ≡ length last
  length-sorted last t inv = ap length inv.entries ∙ length-map (entry_from 0 es) last

  zero-IsStarted :
      (last : List ℕ) (t : Search) (i : ℕ)
      → LoopInv es idx named known last t
      → t.pending ≡ []
      → i < length es
      → t.degree i ≡ 0
      → has i last ≡ true
  zero-IsStarted last t i inv done l z = has-last last t.pending i done (inv.counts.freed i l z)

  -- With all positions started the result is a start order.
  pub all_started-IsStartOrder :
      (last : List ℕ) (t : Search)
      → LoopInv es idx named known last t
      → t.pending ≡ []
      → length t.sorted ≡ length es
      → IsStartOrder es t.sorted
  all_started-IsStartOrder last t inv done full =
      let none_waits : blocked (length es) t.degree ≡ 0 =
        omega (arith, inv.counts.size, length-sorted last t inv) in
      record {
        in_order = inv.in_order;
        size = full;
        complete = λ e m.
            let (i, lo, hi, at) = Memᴰ-entry_from 0 es e m in
            let h =
              zero-IsStarted last t i inv done (omega arith)
                (blocked-none (length es) t.degree i none_waits (omega arith)) in
            subst (Memᴰ e) (sym inv.entries) (
              subst (λ x. Memᴰ x (map (entry_from 0 es) last)) (sym at)
                (map_entries-Memᴰ es last i h));
        sound = λ e m.
            let (i, h, at) = Memᴰ-map_entries es last e (subst (Memᴰ e) inv.entries m) in
            let (_, l) = inv.counts.queued i (has-append_left i last t.pending h) in
            subst (λ x. Memᴰ x es) (sym at) (entry_from-Memᴰ 0 i es (omega arith) (omega arith));
      }

  position_starts :
      (rank : Text → ℕ) (last : List ℕ) (k : ℕ) (d : Text)
      → ((j : ℕ) → j < length es → rank (entry_from 0 es j).name < k → has j last ≡ true)
      → is_there (index_of d idx) ≡ true
      → rank d < k
      → has (position idx d) last ≡ true
  unfolding index_of position
  position_starts rank last k d below there low = elim (Option-cases (index_of d idx)) [
    | inl gone ↦ cc
    | inr (j, e) ↦ elim (names_sound 0 es [] idx d j named e) [
      | inl old ↦ cc
      | inr (_, hi, n) ↦
          ap (λ o. has (or_zero o) last) e ∙ below j (omega arith) (omega (arith, ap rank n))
    ]
  ]

  positions_start :
      (rank : Text → ℕ) (last : List ℕ) (k r : ℕ) (ds : List Text)
      → ((j : ℕ) → j < length es → rank (entry_from 0 es j).name < k → has j last ≡ true)
      → r ≤ k
      → all_known idx ds ≡ true
      → all (λ d. ltb (rank d) r) ds ≡ true
      → all (λ j. has j last) (map (position idx) ds) ≡ true
  unfolding index_of position
  positions_start rank last k r [] below le there low = refl
  positions_start rank last k r (d ∷ ds) below le there low =
      let (t0, ts) = &&_elim (is_there (index_of d idx)) (all_known idx ds) there in
      let (l0, ls) = &&_elim (ltb (rank d) r) (all (λ d. ltb (rank d) r) ds) low in
      ground (
        arith,
        positions_start rank last k r ds below le ts ls,
        position_starts rank last k d below t0 (omega (arith, ltb→lt (rank d) r l0)),
      )

  -- If some rank falls along dependencies, every position is started.
  rank_starts :
      (rank : Text → ℕ) (last : List ℕ) (t : Search) (k i : ℕ)
      → ranks rank es ≡ true
      → LoopInv es idx named known last t
      → t.pending ≡ []
      → i < length es
      → rank (entry_from 0 es i).name < k
      → has i last ≡ true
  unfolding count
  rank_starts rank last t zero i r inv done l h = absurd (omega arith)
  rank_starts rank last t (suc k) i r inv done l h =
      let deps = (entry_from 0 es i).depends in
      let ranked =
        all-Memᴰ (λ e. all (λ d. ltb (rank d) (rank e.name)) e.depends) es (entry_from 0 es i) r
          (entry_from-Memᴰ 0 i es (omega arith) (omega arith)) in
      let started =
        positions_start rank last k (rank (entry_from 0 es i).name) deps
          (λ j jl jh. rank_starts rank last t k j r inv done jl jh) (omega arith)
          (check_all_deps-known idx 0 es i tt known) ranked in
      zero-IsStarted last t i inv done l
        (omega (arith, inv.counts.degrees i, none_missing last (deps_from idx 0 es i) started))

  pub rank_fills :
      (rank : Text → ℕ) (last : List ℕ) (t : Search)
      → ranks rank es ≡ true
      → LoopInv es idx named known last t
      → t.pending ≡ []
      → length t.sorted ≡ length es
  rank_fills rank last t r inv done =
      let none_waits = none-blocked (length es) t.degree (λ i l.
        (inv.counts.queued i (
          has-append_left i last t.pending (
            rank_starts rank last t (suc (rank (entry_from 0 es i).name)) i r inv done l
              (omega arith)))).0) in
      omega (arith, inv.counts.size, length-sorted last t inv, ap length done)
