-- ===== src/Registry/FwLease/Distinct.antt =====
-- Each change of the lease map keeps the slots distinct and in range: lib/fw_lease_pure.cpp.
use crate.Base.{
  Bool, Bool-cases, Map, SortedFrom, SortedFrom-mono, [], arith, erase, erase-below, false, find,
  inl, inr, ltb, ltb→lt, negsuc, pos, put, refl, some, subst, suc, sym, ℕ, ℤ, ◌==◌, ◌∷◌, ◌≡◌,
}
use crate.Registry.FwLease.{Entry, holds, slot_used, live_only}
use crate.Registry.FwLease.Slots.{SlotFits, Distinct}

pub slot_used-erase :
    (n k : ℕ) (m : Map Entry) → slot_used n m ≡ false → slot_used n (erase k m) ≡ false
unfolding slot_used erase
slot_used-erase n k [] h = refl
slot_used-erase n k ((j, w) ∷ m) h = ground (arith, slot_used-erase n k m)

slot_used-put :
    (n k lo : ℕ) (e : Entry) (m : Map Entry)
    → SortedFrom lo m
    → holds n e.slot ≡ false
    → slot_used n m ≡ false
    → slot_used n (put k e m) ≡ false
unfolding slot_used put
slot_used-put n k lo e [] s h u = ground arith
slot_used-put n k lo e ((j, w) ∷ m) s h u = ground (arith, slot_used-put n k (suc j) e m s.1)

SlotFits-put :
    (t : ℤ) (k lo : ℕ) (e : Entry) (m : Map Entry)
    → SortedFrom lo m
    → SlotFits t m
    → ((n : ℕ) → t ≡ pos n → holds n e.slot ≡ false)
    → SlotFits t (put k e m)
SlotFits-put (pos n) k lo e m s f h = (f.0, slot_used-put n k lo e m s (h n refl) f.1)
SlotFits-put (negsuc n) k lo e m s f h = f

SlotFits-cons :
    (t : ℤ) (j : ℕ) (w : Entry) (m : Map Entry)
    → SlotFits t ((j, w) ∷ m)
    → (n : ℕ) → w.slot ≡ pos n
    → holds n t ≡ false
unfolding slot_used
SlotFits-cons (pos i) j w m f n h =
    let apart : holds i w.slot ≡ false = ground arith in
    let apart' : holds i (pos n) ≡ false = rw h at apart in ground (arith, apart')
SlotFits-cons (negsuc i) j w m f n h = refl

SlotFits-tail : (t : ℤ) (j : ℕ) (w : Entry) (m : Map Entry) → SlotFits t ((j, w) ∷ m) → SlotFits t m
unfolding slot_used
SlotFits-tail (pos i) j w m f = ground arith
SlotFits-tail (negsuc i) j w m f = f

pub Distinct-put :
    (k lo : ℕ) (e : Entry) (m : Map Entry)
    → SortedFrom lo m
    → SlotFits e.slot (erase k m)
    → Distinct m
    → Distinct (put k e m)
unfolding put erase
Distinct-put k lo e [] s f d = (f, tt)
Distinct-put k lo e ((j, w) ∷ m) s f d = elim (Bool-cases (ltb k j)) [
  | inl before ↦
      let gone : erase k ((j, w) ∷ m) ≡ (j, w) ∷ m =
        erase-below k j ((j, w) ∷ m) (ltb→lt k j before) (omega arith, s.1) in
      rw before (subst (SlotFits e.slot) gone f, d)
  | inr after ↦ elim (Bool-cases (j == k)) [
    | inl same ↦
        let gone : erase k m ≡ m = erase-below k (suc j) m (ground arith) s.1 in
        rw (after, same) (subst (SlotFits e.slot) gone (rw same at f), d.1)
    | inr other ↦
        let g : SlotFits e.slot ((j, w) ∷ erase k m) = rw other at f in
        rw (after, other)
          (
            SlotFits-put w.slot k (suc j) e m s.1 d.0
                (λ n h. SlotFits-cons e.slot j w (erase k m) g n h),
            Distinct-put k (suc j) e m s.1 (SlotFits-tail e.slot j w (erase k m) g) d.1,
          )
  ]
]

slot_used-find :
    (n k : ℕ) (e : Entry) (m : Map Entry)
    → find k m ≡ some e
    → slot_used n m ≡ false
    → holds n e.slot ≡ false
unfolding slot_used find
slot_used-find n k e [] h u = cc
slot_used-find n k e ((j, w) ∷ m) h u = ground (arith, slot_used-find n k e m)

holds_apart :
    (n k : ℕ) (ws : ℤ) (e : Entry) (m : Map Entry)
    → SlotFits ws m
    → find k m ≡ some e
    → pos n ≡ e.slot
    → holds n ws ≡ false
holds_apart n k (pos i) e m fw h same =
    let free : holds i (pos n) ≡ false =
      subst (λ t. holds i t ≡ false) (sym same) (slot_used-find i k e m h fw.1) in
    ground (arith, free)
holds_apart n k (negsuc i) e m fw h same = refl

SlotFits-apart :
    (t : ℤ) (j k : ℕ) (w e : Entry) (m : Map Entry)
    → SlotFits w.slot m
    → find k m ≡ some e
    → t ≡ e.slot
    → SlotFits t (erase k m)
    → SlotFits t ((j, w) ∷ erase k m)
unfolding slot_used
SlotFits-apart (pos n) j k w e m fw h same f =
    (f.0, ground (arith, holds_apart n k w.slot e m fw h same, f.1))
SlotFits-apart (negsuc n) j k w e m fw h same f = f

-- A lease that is there fits beside the others.
pub Distinct-find :
    (k lo : ℕ) (e : Entry) (m : Map Entry)
    → SortedFrom lo m
    → Distinct m
    → find k m ≡ some e
    → SlotFits e.slot (erase k m)
unfolding find erase
Distinct-find k lo e [] s d h = cc
Distinct-find k lo e ((j, w) ∷ m) s d h = elim (Bool-cases (j == k)) [
  | inl same ↦
      let gone : erase k m ≡ m = erase-below k (suc j) m (ground arith) s.1 in
      let it : w ≡ e = ground arith in
      rw same (subst (SlotFits e.slot) (sym gone) (subst (λ (x : Entry). SlotFits x.slot m) it d.0))
  | inr other ↦
      let h' : find k m ≡ some e = rw other at h in
      rw other
        (SlotFits-apart e.slot j k w e m d.0 h' refl (Distinct-find k (suc j) e m s.1 d.1 h'))
]

slot_used-live_only :
    (n : ℕ) (p : ℕ → Bool) (m : Map Entry)
    → slot_used n m ≡ false
    → slot_used n (live_only p m) ≡ false
unfolding slot_used live_only
slot_used-live_only n p [] h = refl
slot_used-live_only n p ((j, w) ∷ m) h = ground (arith, slot_used-live_only n p m)

SlotFits-erase : (t : ℤ) (k : ℕ) (m : Map Entry) → SlotFits t m → SlotFits t (erase k m)
SlotFits-erase (pos n) k m f = (f.0, slot_used-erase n k m f.1)
SlotFits-erase (negsuc n) k m f = f

SlotFits-live_only :
    (t : ℤ) (p : ℕ → Bool) (m : Map Entry) → SlotFits t m → SlotFits t (live_only p m)
SlotFits-live_only (pos n) p m f = (f.0, slot_used-live_only n p m f.1)
SlotFits-live_only (negsuc n) p m f = f

pub Distinct-erase : (k : ℕ) (m : Map Entry) → Distinct m → Distinct (erase k m)
unfolding erase
Distinct-erase k [] d = tt
Distinct-erase k ((j, w) ∷ m) d =
    ground (arith, SlotFits-erase w.slot k m d.0, Distinct-erase k m d.1)

pub Distinct-live_only : (p : ℕ → Bool) (m : Map Entry) → Distinct m → Distinct (live_only p m)
unfolding live_only
Distinct-live_only p [] d = tt
Distinct-live_only p ((j, w) ∷ m) d =
    ground (arith, SlotFits-live_only w.slot p m d.0, Distinct-live_only p m d.1)

pub live_only-SortedFrom :
    (lo : ℕ) (p : ℕ → Bool) (m : Map Entry) → SortedFrom lo m → SortedFrom lo (live_only p m)
unfolding live_only
live_only-SortedFrom lo p [] s = tt
live_only-SortedFrom lo p ((j, w) ∷ m) s =
    ground (arith, live_only-SortedFrom (suc j) p m s.1, SortedFrom-mono (suc j) lo (live_only p m))
