-- ===== src/Registry/FwLease/Host.antt =====
-- The registry object over the lease state: lib/fw_lease_registry.cpp. The two forwarding sysctls
-- of the host are part of the state; `io_.get` and `io_.set` read and write them and do not fail, and
-- nothing else writes them. The file that `persistLocked_` writes is in crate.Registry.FwLease.File.
use crate.Base.{
  Bool, List, Option, Result, [], err, false, if◌then◌else◌, is_zero, ltb, negsuc, none, ok, pos,
  some, ℕ, ℤ, ◌==◌, ◌>>=◌, ◌∷◌,
}
use crate.Registry.FwLease.{
  State, Transition, LeaseError, acquire, release, reconcile, empty_state, counts,
}

pub record Registry : Type 0 where
  pub state : State
  pub sys4 : ℕ
  pub sys6 : ℕ

-- The lambda `flip` of `applyTransitionLocked_`: the sysctl and the saved value.
unfoldable pub flip : Bool → Bool → ℕ → ℤ → ℕ × ℤ
flip first last cur orig =
    if first
    then (if cur == 0 then (1, pos 0) else (cur, negsuc 0))
    else if last
    then ((if is_zero orig then 0 else cur), negsuc 0)
    else (cur, orig)

unfoldable pub apply_transition : Transition → Registry → Registry
apply_transition t r =
    let f4 = flip t.first4 t.last4 r.sys4 r.state.orig4 in
    let f6 = flip t.first6 t.last6 r.sys6 r.state.orig6 in
    record {
      state = record { leases = r.state.leases; orig4 = f4.1; orig6 = f6.1 };
      sys4 = f4.0;
      sys6 = f6.0;
    }

-- `FwLeaseRegistry::Result`.
pub record Reply : Type 0 where
  pub slot : ℤ
  pub fwd4_users : ℕ
  pub fwd6_users : ℕ
  pub released : Bool

unfoldable pub registry_acquire :
    Registry → ℕ → Bool → Bool → Bool → Result LeaseError (Registry × Reply)
registry_acquire r jid want_slot want4 want6 = do
  a ← acquire r.state jid want_slot want4 want6
  let c = counts a.0
  let reply : Reply = record {
    slot = a.1.slot;
    fwd4_users = c.fwd4;
    fwd6_users = c.fwd6;
    released = false;
  }
  ok (apply_transition a.2 (record r { state = a.0 }), reply)

-- The reply starts with slot -1.
unfoldable pub registry_release : Registry → ℕ → Registry × Reply
registry_release r jid =
    let a = release r.state jid in
    let c = counts a.0 in
    let reply : Reply = record {
      slot = negsuc 0;
      fwd4_users = c.fwd4;
      fwd6_users = c.fwd6;
      released = a.2;
    } in
    let r' : Registry = record r { state = a.0 } in
    ((if a.2 then apply_transition a.1 r' else r'), reply)

-- The probe may be unset.
unfoldable pub registry_reconcile : Registry → Option (ℕ → Bool) → Registry × ℕ
registry_reconcile r none = (r, 0)
registry_reconcile r (some is_live) =
    let a = reconcile r.state is_live in
    let r' : Registry = record r { state = a.0 } in
    ((if ltb 0 a.2 then apply_transition a.1 r' else r'), a.2)

-- A call on the registry; a failed acquire changes nothing.
pub data Call : Type 0 where
  acquires : ℕ → Bool → Bool → Bool → Call
  releases : ℕ → Call
  reconciles : Option (ℕ → Bool) → Call

abbrev pub after : Registry → Result LeaseError (Registry × Reply) → Registry
after r (ok a) = a.0
after r (err e) = r

unfoldable pub step : Registry → Call → Registry
step r (acquires jid want_slot want4 want6) = after r (registry_acquire r jid want_slot want4 want6)
step r (releases jid) = (registry_release r jid).0
step r (reconciles is_live) = (registry_reconcile r is_live).0

unfoldable pub run : Registry → List Call → Registry
run r [] = r
run r (c ∷ cs) = run (step r c) cs

-- A daemon that starts with no lease file, on a host with the given sysctls.
abbrev pub fresh : ℕ → ℕ → Registry
fresh sys4 sys6 = record { state = empty_state; sys4 = sys4; sys6 = sys6 }
