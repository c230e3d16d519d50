-- ===== src/Registry/FwLease/Slots.antt =====
-- The firewall slots: the lowest free one, and what a successful acquire returns.
use crate.Base.{
  >>=-eq-ok, Between, Between-cons, Bool, Bool-cases, Map, SortedFrom, [], ap, arith, err, false,
  find, if◌then◌else◌, inl, inr, is_negative, negsuc, ok, ok_injective, pos, put, refl, subst, suc,
  sym, true, zero, ℕ, ℤ, ◌&&◌, ◌+◌, ◌<◌, ◌∷◌, ◌≡◌, ◌≤◌, ◌⊎◌,
}
use crate.Registry.FwLease.{
  Entry, State, k_max_slots, slot_used, slot_loop, lowest_free_slot, acquire, choose_slot,
  found_entry, Acquired, mark, no_free_slot,
}

-- Either every slot is in use and the result is -1, or it is the lowest free slot.
abbrev pub LowestFree : Map Entry → ℕ → ℕ → ℤ → Type 0
LowestFree m first last (pos r) =
    (first ≤ r) × (r < last) × (slot_used r m ≡ false) × Between (λ i. slot_used i m ≡ true) first r
LowestFree m first last (negsuc n) = (n ≡ 0) × Between (λ i. slot_used i m ≡ true) first last

slot_loop_lem : (m : Map Entry) (rounds i : ℕ) → LowestFree m i (i + rounds) (slot_loop m rounds i)
unfolding slot_loop
slot_loop_lem m zero i = (refl, λ b lo hi. absurd (omega arith))
slot_loop_lem m (suc rounds) i = elim (Bool-cases (slot_used i m)) [
  | inl used ↦ rw used (skip used (slot_loop m rounds (i + 1)) (slot_loop_lem m rounds (i + 1)))
  | inr free ↦ rw free (omega arith, omega arith, free, λ b lo hi. absurd (omega arith))
]
  where
    skip :
        slot_used i m ≡ true
        → (r : ℤ) → LowestFree m (i + 1) (i + 1 + rounds) r
        → LowestFree m i (i + suc rounds) r
    skip used_at (pos r) (lo, hi, free, before) = (
      omega arith,
      omega arith,
      free,
      Between-cons (λ b. slot_used b m ≡ true) i r used_at before,
    )
    skip used_at (negsuc n) (z, before) =
        let shift : i + 1 + rounds ≡ i + suc rounds = omega arith in
        (
          z,
          subst (Between (λ b. slot_used b m ≡ true) i) shift
              (Between-cons (λ b. slot_used b m ≡ true) i (i + 1 + rounds) used_at before),
        )

-- `lowestFreeSlot` returns the lowest slot below the limit that no lease holds, and -1 exactly when
-- leases hold them all.
pub lowest_free_slot_lem :
    (s : State) (limit : ℕ) → LowestFree s.leases 0 limit (lowest_free_slot s limit)
unfolding lowest_free_slot
lowest_free_slot_lem s limit =
    let zero_start : 0 + limit ≡ limit = omega arith in
    subst (λ n. LowestFree s.leases 0 n (slot_loop s.leases limit 0)) zero_start
      (slot_loop_lem s.leases limit 0)

-- What a lease's slot is beside the other leases.
abbrev pub SlotFits : ℤ → Map Entry → Type 0
SlotFits (pos n) m = (n < k_max_slots) × (slot_used n m ≡ false)
SlotFits (negsuc n) m = n ≡ 0

abbrev pub Distinct : Map Entry → Type 0
Distinct [] = Unit {0}
Distinct ((j, e) ∷ m) = SlotFits e.slot m × Distinct m

-- Jids from 1 to 65535 in order, and slots below the limit held once.
pub record IsValid (s : State) : Type 0 where
  pub sorted : SortedFrom 1 s.leases
  pub distinct : Distinct s.leases

-- A successful choice keeps the entry, or gives it the lowest free slot.
pub choose_slot_cases :
    (s : State) (want_slot : Bool) (e e' : Entry)
    → choose_slot s want_slot e ≡ ok e'
    → ((e' ≡ e) × ((want_slot && is_negative e.slot) ≡ false))
      ⊎ ((r : ℕ) × (lowest_free_slot s k_max_slots ≡ pos r) × (e' ≡ record e { slot = pos r }))
unfolding choose_slot
choose_slot_cases s want_slot e e' h = elim (Bool-cases (want_slot && is_negative e.slot)) [
  | inl need ↦ by_slot (lowest_free_slot s k_max_slots) refl (rw need at h)
  | inr keep ↦ inl (sym (ok_injective (rw keep at h)), keep)
]
  where
    by_slot :
        (r : ℤ)
        → lowest_free_slot s k_max_slots ≡ r
        → (if is_negative (lowest_free_slot s k_max_slots)
            then err no_free_slot
            else ok (record e { slot = lowest_free_slot s k_max_slots }))
          ≡ ok e'
        → ((e' ≡ e) × ((want_slot && is_negative e.slot) ≡ false))
          ⊎ ((n : ℕ) × (lowest_free_slot s k_max_slots ≡ pos n) × (e' ≡ record e { slot = pos n }))
    by_slot (pos n) eq g = inr (n, eq, sym (ok_injective (rw eq at g)))
    by_slot (negsuc n) eq g = ground (arith, g, eq)

-- What a successful acquire returns, in terms of the entry that the choice of a slot gave.
pub acquire_parts :
    (s : State) (jid : ℕ) (want_slot want4 want6 : Bool) (a : Acquired)
    → acquire s jid want_slot want4 want6 ≡ ok a
    → (e : Entry) × (choose_slot s want_slot (found_entry (find jid s.leases)) ≡ ok e)
      × (a.0 ≡ record s { leases = put jid (mark want4 want6 e) s.leases })
      × (a.1 ≡ mark want4 want6 e)
unfolding acquire
acquire_parts s jid want_slot want4 want6 a h =
    let (e, chosen, rest) =
      >>=-eq-ok (choose_slot s want_slot (found_entry (find jid s.leases))) _ h in
    let result = sym (ok_injective rest) in
    (e, chosen, ap (λ (x : Acquired). x.0) result, ap (λ (x : Acquired). x.1) result)
