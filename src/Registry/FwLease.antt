-- ===== src/Registry/FwLease.antt =====
-- Firewall leases of jails: lib/fw_lease_pure.{h,cpp}. Each operation takes the state and returns the
-- new one; the callers hold a file lock round it, so operations do not interleave.
pub mod Slots
pub mod Distinct
pub mod Keeps
pub mod Host
pub mod Forwarding
pub mod File
use crate.Base.{
  Bool, Map, Option, Result, [], erase, err, false, find, if◌then◌else◌, is_negative, ltb, negsuc,
  none, ok, pos, put, some, suc, true, zero, ℕ, ℤ, ◌&&◌, ◌+◌, ◌==◌, ◌>>=◌, ◌>>◌, ◌||◌, ◌∷◌,
}

pub record Entry : Type 0 where
  pub slot : ℤ
  pub fwd4 : Bool
  pub fwd6 : Bool

pub record State : Type 0 where
  pub leases : Map Entry
  pub orig4 : ℤ
  pub orig6 : ℤ

pub record Counts : Type 0 where
  pub fwd4 : ℕ
  pub fwd6 : ℕ

pub record Transition : Type 0 where
  pub first4 : Bool
  pub last4 : Bool
  pub first6 : Bool
  pub last6 : Bool

abbrev pub k_max_slots : ℕ
k_max_slots = 1500

-- `Entry{}` and `Transition{}`.
abbrev pub new_entry : Entry
new_entry = record { slot = negsuc 0; fwd4 = false; fwd6 = false }

abbrev pub no_transition : Transition
no_transition = record { first4 = false; last4 = false; first6 = false; last6 = false }

abbrev pub count_if : (Entry → Bool) → Map Entry → ℕ
count_if p [] = 0
count_if p ((j, e) ∷ m) = (if p e then 1 else 0) + count_if p m

unfoldable pub counts : State → Counts
counts s = record { fwd4 = count_if (λ e. e.fwd4) s.leases; fwd6 = count_if (λ e. e.fwd6) s.leases }

-- `used.count(i)`: some entry holds slot i; negative slots are not inserted.
abbrev pub holds : ℕ → ℤ → Bool
holds i (pos n) = n == i
holds i (negsuc n) = false

unfoldable pub slot_used : ℕ → Map Entry → Bool
slot_used i [] = false
slot_used i ((j, e) ∷ m) = holds i e.slot || slot_used i m

-- The loop `for (int i = 0; i < maxSlots; i++)` with the number of rounds that are left.
unfoldable pub slot_loop : Map Entry → ℕ → ℕ → ℤ
slot_loop m zero i = negsuc 0
slot_loop m (suc rounds) i =
    let rest = slot_loop m rounds (i + 1) in if slot_used i m then rest else pos i

unfoldable pub lowest_free_slot : State → ℕ → ℤ
lowest_free_slot s max_slots = slot_loop s.leases max_slots 0

unfoldable pub diff : Counts → Counts → Transition
diff before after = record {
  first4 = before.fwd4 == 0 && ltb 0 after.fwd4;
  last4 = ltb 0 before.fwd4 && after.fwd4 == 0;
  first6 = before.fwd6 == 0 && ltb 0 after.fwd6;
  last6 = ltb 0 before.fwd6 && after.fwd6 == 0;
}

-- The new state, the lease and the transition, or "no free firewall slot".
pub data LeaseError : Type 0 where
  no_free_slot : LeaseError

abbrev pub Acquired : Type 0
Acquired = State × Entry × Transition

-- `if (wantSlot && e.slot < 0) { … }`.
unfoldable pub choose_slot : State → Bool → Entry → Result LeaseError Entry
choose_slot s want_slot e =
    if want_slot && is_negative e.slot
    then (let slot = lowest_free_slot s k_max_slots in
        if is_negative slot then err no_free_slot else ok (record e { slot = slot }))
    else ok e

abbrev pub mark : Bool → Bool → Entry → Entry
mark want4 want6 e = record e {
  fwd4 = (if want4 then true else e.fwd4);
  fwd6 = (if want6 then true else e.fwd6);
}

abbrev pub found_entry : Option Entry → Entry
found_entry none = new_entry
found_entry (some e) = e

unfoldable pub acquire : State → ℕ → Bool → Bool → Bool → Result LeaseError Acquired
acquire s jid want_slot want4 want6 = do
  e ← choose_slot s want_slot (found_entry (find jid s.leases))
  let e' = mark want4 want6 e
  let s' = record s { leases = put jid e' s.leases }
  ok (s', e', diff (counts s) (counts s'))

-- The new state, the transition, and whether the jid held a lease.
unfoldable pub release : State → ℕ → State × Transition × Bool
release s jid =
    let found : Bool = elim (find jid s.leases) [ none ↦ false | some _ ↦ true ] in
    let s' : State = if found then record s { leases = erase jid s.leases } else s in
    (s', diff (counts s) (counts s'), found)

unfoldable pub live_only : (ℕ → Bool) → Map Entry → Map Entry
live_only is_live [] = []
live_only is_live ((j, e) ∷ m) =
    let rest = live_only is_live m in if is_live j then (j, e) ∷ rest else rest

unfoldable pub dropped_of : (ℕ → Bool) → Map Entry → ℕ
dropped_of is_live [] = 0
dropped_of is_live ((j, e) ∷ m) = (if is_live j then 0 else 1) + dropped_of is_live m

unfoldable pub reconcile : State → (ℕ → Bool) → State × Transition × ℕ
reconcile s is_live =
    let s' = record s { leases = live_only is_live s.leases } in
    (s', diff (counts s) (counts s'), dropped_of is_live s.leases)

abbrev pub empty_state : State
empty_state = record { leases = []; orig4 = negsuc 0; orig6 = negsuc 0 }
