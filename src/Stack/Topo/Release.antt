-- ===== src/Stack/Topo/Release.antt =====
-- The invariant of the `while` loop of `topoSort`, for any lists of dependencies: what holds of the
-- positions that are done, of the queue and of the degrees, while those that depend on the last one
-- are being released.
use crate.Base.{
  &&_elim, Bool-cases, List, [], all, ap, append_assoc, arith, false, has, inl, inr, length,
  length-append, ltb, ltb→lt, refl, subst, sym, true, ℕ, ℕ_discrete, ◌++◌, ◌+◌, ◌-◌, ◌<◌, ◌==◌, ◌↔◌,
  ◌∙◌, ◌∷◌, ◌≡◌, ◌≢◌, ◌⊎◌,
}
use crate.Stack.Topo.{Search, ready, update, release_one, release_all}
use crate.Stack.Topo.Degrees.{count, update-at, update-other}
use crate.Stack.Topo.Scheduled.{
  missing, blocked, distinct, has-snoc_left, has-snoc_self, has-snoc_other, distinct-snoc,
  distinct-cut, missing-snoc, missing-nil, missing_none, blocked-update, length-ready,
  has-ready_sound, has-ready, distinct-ready, has-append_right,
}

-- Where the degrees are 0 after one of them has fallen by one.
still_zero :
    (deg : ℕ → ℕ) (next i : ℕ) → 1 < deg next → (update deg next (deg next - 1) i ≡ 0) ↔ (deg i ≡ 0)
still_zero deg next i p = elim (ℕ_discrete next i) [
  | yes at ↦
      subst (λ i. (update deg next (deg next - 1) i ≡ 0) ↔ (deg i ≡ 0)) at
        (ground (arith, update-at deg next (deg next - 1)))
  | no ne ↦ ground (arith, update-other deg next (deg next - 1) i ne)
]

now_zero :
    (deg : ℕ → ℕ) (next i : ℕ)
    → deg next ≡ 1
    → (update deg next (deg next - 1) i ≡ 0) ↔ ((next ≡ i) ⊎ (deg i ≡ 0))
now_zero deg next i p = elim (ℕ_discrete next i) [
  | yes at ↦ (
    λ _. inl at,
    λ _.
        subst (λ i. update deg next (deg next - 1) i ≡ 0) at
          (ground (arith, update-at deg next (deg next - 1))),
  )
  | no ne ↦ ground (arith, update-other deg next (deg next - 1) i ne)
]

module _ (deps : ℕ → List ℕ) (n : ℕ) where
  -- `started` is done, `pending` is the queue, `later` is still to be released.
  pub record Inv (started pending later : List ℕ) (deg : ℕ → ℕ) : Type 0 where
    pub degrees : (i : ℕ) → deg i ≡ missing started (deps i) + count i later
    pub queued : (i : ℕ) → has i (started ++ pending) ≡ true → (deg i ≡ 0) × (i < n)
    pub freed : (i : ℕ) → i < n → deg i ≡ 0 → has i (started ++ pending) ≡ true
    pub once : distinct (started ++ pending) ≡ true
    pub size : blocked n deg + length pending + length started ≡ n
    pub in_range : all (λ i. ltb i n) later ≡ true

  pub Inv-start : (deg : ℕ → ℕ) → ((i : ℕ) → deg i ≡ length (deps i)) → Inv [] (ready n deg) [] deg
  unfolding count
  Inv-start deg same = record {
    degrees = λ i. omega (arith, same i, missing-nil (deps i));
    queued = has-ready_sound n deg;
    freed = has-ready n deg;
    once = distinct-ready n deg;
    size = omega (arith, length-ready n deg);
    in_range = refl;
  }

  -- Taking `cur` off the queue.
  pub Inv-pop :
      (started rest later : List ℕ) (cur : ℕ) (deg : ℕ → ℕ)
      → Inv started (cur ∷ rest) [] deg
      → ((i : ℕ) → count i later ≡ count cur (deps i))
      → all (λ i. ltb i n) later ≡ true
      → Inv (started ++ cur ∷ []) rest later deg
  unfolding count
  Inv-pop started rest later cur deg inv out range =
      let fresh = distinct-cut cur started rest inv.once in
      let whole = append_assoc started (cur ∷ []) rest in
      record {
        degrees = λ i. omega (arith, inv.degrees i, out i, missing-snoc cur started (deps i) fresh);
        queued = λ i h. inv.queued i (sym (ap (has i) whole) ∙ h);
        freed = λ i l z. ap (has i) whole ∙ inv.freed i l z;
        once = ap distinct whole ∙ inv.once;
        size = omega (arith, inv.size, length-append started (cur ∷ []));
        in_range = range;
      }

  -- What is taken off the queue has all its dependencies behind it.
  pub Inv-head :
      (started rest : List ℕ) (cur : ℕ) (deg : ℕ → ℕ)
      → Inv started (cur ∷ rest) [] deg
      → (cur < n) × (all (λ d. has d started) (deps cur) ≡ true)
  unfolding count
  Inv-head started rest cur deg inv =
      let (zero_deg, in_stack) =
        inv.queued cur (has-append_right cur started (cur ∷ rest) (ground arith)) in
      (in_stack, missing_none started (deps cur) (omega (arith, inv.degrees cur, zero_deg)))

  degrees-release_one :
      (started later : List ℕ) (next : ℕ) (deg : ℕ → ℕ) (i : ℕ)
      → ((j : ℕ) → deg j ≡ missing started (deps j) + count j (next ∷ later))
      → update deg next (deg next - 1) i ≡ missing started (deps i) + count i later
  unfolding count
  degrees-release_one started later next deg i h = elim (ℕ_discrete next i) [
    | yes at ↦
        subst (λ i. update deg next (deg next - 1) i ≡ missing started (deps i) + count i later) at
          (ground (arith, update-at deg next (deg next - 1), h next))
    | no ne ↦ ground (arith, update-other deg next (deg next - 1) i ne, h i)
  ]

  deg-positive :
      (started later : List ℕ) (next : ℕ) (deg : ℕ → ℕ)
      → ((j : ℕ) → deg j ≡ missing started (deps j) + count j (next ∷ later))
      → 0 < deg next
  unfolding count
  deg-positive started later next deg h = ground (arith, h next)

  -- `next` keeps waiting.
  Inv-waits :
      (started pending later : List ℕ) (next : ℕ) (deg : ℕ → ℕ)
      → Inv started pending (next ∷ later) deg
      → deg next ≢ 1
      → Inv started pending later (update deg next (deg next - 1))
  Inv-waits started pending later next deg inv more =
      let p = deg-positive started later next deg inv.degrees in
      let (l, range) = &&_elim (ltb next n) (all (λ i. ltb i n) later) inv.in_range in
      let above : 1 < deg next = omega arith in
      record {
        degrees = λ i. degrees-release_one started later next deg i inv.degrees;
        queued = λ i h. let (z, b) = inv.queued i h in ((still_zero deg next i above).1 z, b);
        freed = λ i b z. inv.freed i b ((still_zero deg next i above).0 z);
        once = inv.once;
        size =
            ground (arith, inv.size, blocked-update n deg next (deg next - 1) (ltb→lt next n l) p);
        in_range = range;
      }

  not_queued :
      (started pending : List ℕ) (next : ℕ) (deg : ℕ → ℕ)
      → ((i : ℕ) → has i (started ++ pending) ≡ true → deg i ≡ 0)
      → deg next ≡ 1
      → has next (started ++ pending) ≡ false
  not_queued started pending next deg zero_deg one =
      elim (Bool-cases (has next (started ++ pending))) [
        | inl h ↦ absurd (omega (arith, zero_deg next h))
        | inr h ↦ h
      ]

  -- `next` enters the queue.
  Inv-enters :
      (started pending later : List ℕ) (next : ℕ) (deg : ℕ → ℕ)
      → Inv started pending (next ∷ later) deg
      → deg next ≡ 1
      → Inv started (pending ++ next ∷ []) later (update deg next (deg next - 1))
  Inv-enters started pending later next deg inv one =
      let (l, range) = &&_elim (ltb next n) (all (λ i. ltb i n) later) inv.in_range in
      let whole = append_assoc started pending (next ∷ []) in
      let fresh : has next (started ++ pending) ≡ false =
        not_queued started pending next deg (λ i h. (inv.queued i h).0) one in
      record {
        degrees = λ i. degrees-release_one started later next deg i inv.degrees;
        queued = λ i h. elim (ℕ_discrete next i) [
          | yes e ↦ ((now_zero deg next i one).1 (inl e), subst (λ i. i < n) e (ltb→lt next n l))
          | no ne ↦
              let (z, b) =
                inv.queued i
                  (has-snoc_other i next (started ++ pending) ne (ap (has i) whole ∙ h)) in
              ((now_zero deg next i one).1 (inr z), b)
        ];
        freed = λ i b z. sym (ap (has i) whole) ∙ elim ((now_zero deg next i one).0 z) [
          | inl e ↦
              subst (λ j. has j ((started ++ pending) ++ next ∷ []) ≡ true) e
                (has-snoc_self next (started ++ pending))
          | inr old ↦ has-snoc_left i next (started ++ pending) (inv.freed i b old)
        ];
        once = sym (ap distinct whole) ∙ distinct-snoc next (started ++ pending) fresh inv.once;
        size = ground (
          arith,
          inv.size,
          length-append pending (next ∷ []),
          blocked-update n deg next (deg next - 1) (ltb→lt next n l) (omega arith),
        );
        in_range = range;
      }

  Inv-release_one :
      (started later : List ℕ) (next : ℕ) (s : Search)
      → Inv started s.pending (next ∷ later) s.degree
      → Inv started (release_one s next).pending later (release_one s next).degree
  unfolding release_one
  Inv-release_one started later next s inv = elim (Bool-cases (s.degree next == 1)) [
    | inl one ↦ rw one (Inv-enters started s.pending later next s.degree inv (ground arith))
    | inr more ↦ rw more (Inv-waits started s.pending later next s.degree inv (ground arith))
  ]

  pub Inv-release_all :
      (started later : List ℕ) (s : Search)
      → Inv started s.pending later s.degree
      → Inv started (release_all s later).pending [] (release_all s later).degree
  unfolding release_all
  Inv-release_all started [] s inv = inv
  Inv-release_all started (next ∷ later) s inv =
      Inv-release_all started later (release_one s next) (Inv-release_one started later next s inv)
