-- ===== src/Stack/Policy/Slots.antt =====
-- `freePolicySlot` finds the first free block.
use crate.Base.{
  Bool, Bool-cases, List, [], all, any, any-sort_by, ap, arith, dec_le, false, inl, inr, is_rising,
  leb, ltb, not, refl, sort_by, sort_by-ltb, subst, suc, sym, true, zero, ℕ, ℕ_discrete, ◌&&◌, ◌*◌,
  ◌+◌, ◌-◌, ◌<◌, ◌==◌, ◌^◌, ◌||◌, ◌∙◌, ◌∷◌, ◌≡◌, ◌≤◌,
}
use crate.Stack.Policy.{lower_bound, policy_slot_loop, free_policy_slot, is_past, plus32}

-- Some rule lies in the block that starts at `slot`.
abbrev pub is_taken : List ℕ → ℕ → ℕ → Bool
is_taken used width slot = any (λ u. leb slot u && ltb u (slot + width)) used

-- The first block of `width` numbers from `slot` on that ends by `end` and holds no rule, or 0 if
-- there is none.
pub data FirstFree (used : List ℕ) (end width : ℕ) (slot : ℕ) : ℕ → Type 0 where
  free :
      (k r : ℕ)
      → r ≡ slot + k * width
      → r + width ≤ suc end
      → is_taken used width r ≡ false
      → ((j : ℕ) → j < k → is_taken used width (slot + j * width) ≡ true)
      → FirstFree used end width slot r
  full :
      ((j : ℕ) → slot + j * width + width ≤ suc end → is_taken used width (slot + j * width) ≡ true)
      → FirstFree used end width slot 0

none_past :
    (xs : List ℕ) (slot width x : ℕ)
    → slot + width ≤ x
    → all (leb x) xs ≡ true
    → is_taken xs width slot ≡ false
none_past [] slot width x p h = refl
none_past (y ∷ ys) slot width x p h = ground (arith, none_past ys slot width x p)

-- The set's `lower_bound` sees whether a block is free.
is_past-lower_bound :
    (xs : List ℕ) (slot width : ℕ)
    → 0 < width
    → is_rising (λ x. x) xs ≡ true
    → is_past (slot + (width - 1)) (lower_bound slot xs) ≡ not (is_taken xs width slot)
unfolding lower_bound is_rising
is_past-lower_bound [] slot width p h = refl
is_past-lower_bound (x ∷ xs) slot width p h = elim (Bool-cases (ltb x slot)) [
  | inl e ↦ rw e (ground (arith, is_past-lower_bound xs slot width p))
  | inr e ↦ rw e (ground (arith, none_past xs slot width x))
]

block_zero : (slot j width : ℕ) → j ≡ 0 → slot + j * width ≡ slot
block_zero slot j width z = rw z (omega arith)

block_at : (slot k width : ℕ) → slot + suc k * width ≡ slot + width + k * width
block_at slot k width = omega arith

block_pred : (slot j width : ℕ) → 0 < j → slot + j * width ≡ slot + width + (j - 1) * width
block_pred slot zero width h = absurd (omega arith)
block_pred slot (suc j) width h =
    let e : suc j - 1 ≡ j = omega arith in
    ap (λ k. slot + suc k * width) (sym e) ∙ block_at slot (suc j - 1) width

FirstFree-next :
    (used : List ℕ) (end width slot r : ℕ)
    → is_taken used width slot ≡ true
    → FirstFree used end width (slot + width) r
    → FirstFree used end width slot r
FirstFree-next used end width slot r t (free k _ at fits is_free earlier) =
    free (suc k) r (at ∙ sym (block_at slot k width)) fits is_free (λ j l. elim (ℕ_discrete j 0) [
      | yes z ↦ ap (is_taken used width) (block_zero slot j width z) ∙ t
      | no nz ↦
          ap (is_taken used width) (block_pred slot j width (omega arith))
          ∙ earlier (j - 1) (omega arith)
    ])
FirstFree-next used end width slot r t (full all_taken) = full (λ j l. elim (ℕ_discrete j 0) [
  | yes z ↦ ap (is_taken used width) (block_zero slot j width z) ∙ t
  | no nz ↦
      ap (is_taken used width) (block_pred slot j width (omega arith))
      ∙ all_taken (j - 1) (omega (arith, block_pred slot j width (omega arith)))
])

policy_slot_loop-FirstFree :
    (used : List ℕ) (end width fuel slot : ℕ)
    → 0 < width
    → end + width < 2 ^ 32
    → suc end ≤ fuel + slot
    → slot ≤ suc end
    → FirstFree used end width slot (policy_slot_loop (sort_by ltb used) end width fuel slot)
unfolding policy_slot_loop
policy_slot_loop-FirstFree used end width zero slot p big enough low =
    full (λ j l. absurd (omega arith))
policy_slot_loop-FirstFree used end width (suc fuel) slot p big enough low =
    let last : plus32 slot (width - 1) ≡ slot + (width - 1) = omega arith in
    elim (dec_le (slot + width) (suc end)) [
      | no above ↦
          let out : leb (plus32 slot (width - 1)) end ≡ false = ground arith in
          rw out (full (λ j l. absurd (omega arith)))
      | yes fits ↦
          let next : plus32 slot width ≡ slot + width = omega arith in
          let inside : leb (plus32 slot (width - 1)) end ≡ true = ground arith in
          let sees =
            ap (λ l. is_past l (lower_bound slot (sort_by ltb used))) last
            ∙ is_past-lower_bound (sort_by ltb used) slot width p (sort_by-ltb used)
            ∙ ap not (any-sort_by ltb (λ u. leb slot u && ltb u (slot + width)) used) in
          elim (Bool-cases (is_taken used width slot)) [
            | inl taken ↦ rw inside (
                rw (sees ∙ ap not taken) (
                  FirstFree-next used end width slot _ taken (
                    subst
                      (λ n.
                        FirstFree used end width (slot + width)
                          (policy_slot_loop (sort_by ltb used) end width fuel n))
                      (sym next)
                      (policy_slot_loop-FirstFree used end width fuel (slot + width) p big
                        (omega arith) (omega arith)))))
            | inr is_free ↦ rw inside (
                rw (sees ∙ ap not is_free)
                  (free 0 slot (omega arith) fits is_free (λ j l. absurd (omega arith))))
          ]
    ]

-- The block that `freePolicySlot` picks is the first free one of the range, and it returns 0 exactly
-- when every block holds a rule; rounds past the end of `unsigned` are excluded.
pub free_policy_slot-FirstFree :
    (used : List ℕ) (base end width : ℕ)
    → 0 < width
    → base ≤ end
    → end + width < 2 ^ 32
    → FirstFree used end width base (free_policy_slot used base end width)
unfolding free_policy_slot
free_policy_slot-FirstFree used base end width p h big =
    let usable : (width == 0 || ltb end base) ≡ false = ground arith in
    rw usable (
      policy_slot_loop-FirstFree used end width (suc (end - base)) base p big (omega arith)
        (omega arith))
