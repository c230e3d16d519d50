-- ===== src/Registry/FwLease/Forwarding.antt =====
-- The forwarding sysctls over any history of the registry.
use crate.Base.{
  Bool, Bool-cases, List, Map, Option, Option-cases, Result-cases, [], arith, erase, false, find,
  if◌then◌else◌, inl, inr, ltb, negsuc, none, pos, put, refl, some, true, ℕ, ℤ, ◌&&◌, ◌==◌, ◌∷◌,
  ◌≡◌,
}
use crate.Registry.FwLease.{
  State, Entry, acquire, release, reconcile, counts, diff, count_if, live_only, dropped_of,
  found_entry, choose_slot, mark,
}
use crate.Registry.FwLease.Host.{
  Registry, Call, acquires, releases, reconciles, flip, apply_transition, registry_acquire,
  registry_release, registry_reconcile, after, step, run, fresh,
}

-- One sysctl whose value was `h` before the first user: on while there are users, and `h` again
-- when there are none; the saved value says whether the registry turned it on.
abbrev pub Tracks : ℕ → ℕ → ℕ → ℤ → Type 0
Tracks h users cur orig =
    (cur ≡ (if ltb 0 users && h == 0 then 1 else h))
    × (orig ≡ (if ltb 0 users && h == 0 then pos 0 else negsuc 0))

flip-Tracks :
    (h before later cur : ℕ) (orig : ℤ)
    → Tracks h before cur orig
    → let f = flip (before == 0 && ltb 0 later) (ltb 0 before && later == 0) cur orig in
      Tracks h later f.0 f.1
unfolding flip
flip-Tracks h before later cur orig t = ground arith

abbrev pub Follows : ℕ → ℕ → Registry → Type 0
Follows h4 h6 r =
    Tracks h4 (counts r.state).fwd4 r.sys4 r.state.orig4
    × Tracks h6 (counts r.state).fwd6 r.sys6 r.state.orig6

-- A change of the leases with its transition applied.
apply-Follows :
    (h4 h6 : ℕ) (r : Registry) (m : Map Entry)
    → Follows h4 h6 r
    → let s' = record r.state { leases = m } in
      Follows h4 h6 (apply_transition (diff (counts r.state) (counts s')) (record r { state = s' }))
unfolding apply_transition diff counts
apply-Follows h4 h6 r m f = (
  flip-Tracks h4 (count_if (λ e. e.fwd4) r.state.leases) (count_if (λ e. e.fwd4) m) r.sys4
      r.state.orig4 f.0,
  flip-Tracks h6 (count_if (λ e. e.fwd6) r.state.leases) (count_if (λ e. e.fwd6) m) r.sys6
      r.state.orig6 f.1,
)

live_only-none : (p : ℕ → Bool) (m : Map Entry) → ltb 0 (dropped_of p m) ≡ false → live_only p m ≡ m
unfolding live_only dropped_of
live_only-none p [] h = refl
live_only-none p ((j, e) ∷ m) h = ground (arith, live_only-none p m)

acquires-Follows :
    (h4 h6 : ℕ) (r : Registry) (jid : ℕ) (want_slot want4 want6 : Bool)
    → Follows h4 h6 r
    → Follows h4 h6 (after r (registry_acquire r jid want_slot want4 want6))
unfolding registry_acquire acquire
acquires-Follows h4 h6 r jid want_slot want4 want6 f =
    elim (Result-cases (choose_slot r.state want_slot (found_entry (find jid r.state.leases)))) [
      | inl (e, bad) ↦ rw bad f
      | inr (e, good) ↦
          rw good (apply-Follows h4 h6 r (put jid (mark want4 want6 e) r.state.leases) f)
    ]

release-none :
    (s : State) (jid : ℕ)
    → find jid s.leases ≡ none
    → release s jid ≡ (s, diff (counts s) (counts s), false)
unfolding release
release-none s jid e = rw e

release-some :
    (s : State) (jid : ℕ) (w : Entry)
    → find jid s.leases ≡ some w
    → let s' = record s { leases = erase jid s.leases } in
      release s jid ≡ (s', diff (counts s) (counts s'), true)
unfolding release
release-some s jid w e = rw e

releases-Follows :
    (h4 h6 : ℕ) (r : Registry) (jid : ℕ)
    → Follows h4 h6 r
    → Follows h4 h6 (registry_release r jid).0
unfolding registry_release
releases-Follows h4 h6 r jid f = elim (Option-cases (find jid r.state.leases)) [
  | inl e ↦ rw (release-none r.state jid e) f
  | inr (w, e) ↦
      rw (release-some r.state jid w e) (apply-Follows h4 h6 r (erase jid r.state.leases) f)
]

reconciles-Follows :
    (h4 h6 : ℕ) (r : Registry) (p : Option (ℕ → Bool))
    → Follows h4 h6 r
    → Follows h4 h6 (registry_reconcile r p).0
unfolding registry_reconcile reconcile
reconciles-Follows h4 h6 r none f = f
reconciles-Follows h4 h6 r (some p) f = elim (Bool-cases (ltb 0 (dropped_of p r.state.leases))) [
  | inl some_gone ↦ rw some_gone (apply-Follows h4 h6 r (live_only p r.state.leases) f)
  | inr none_gone ↦ rw none_gone (rw (live_only-none p r.state.leases none_gone) f)
]

step-Follows : (h4 h6 : ℕ) (r : Registry) (c : Call) → Follows h4 h6 r → Follows h4 h6 (step r c)
unfolding step
step-Follows h4 h6 r (acquires jid want_slot want4 want6) f =
    acquires-Follows h4 h6 r jid want_slot want4 want6 f
step-Follows h4 h6 r (releases jid) f = releases-Follows h4 h6 r jid f
step-Follows h4 h6 r (reconciles p) f = reconciles-Follows h4 h6 r p f

run-Follows :
    (h4 h6 : ℕ) (r : Registry) (cs : List Call) → Follows h4 h6 r → Follows h4 h6 (run r cs)
unfolding run
run-Follows h4 h6 r [] f = f
run-Follows h4 h6 r (c ∷ cs) f = run-Follows h4 h6 (step r c) cs (step-Follows h4 h6 r c f)

-- After any history of a daemon that starts with no leases, each forwarding sysctl is on while some
-- lease holds a reference on it, and has its original value when none does. An original value
-- other than 0 is never written.
pub run-fresh-Follows : (h4 h6 : ℕ) (cs : List Call) → Follows h4 h6 (run (fresh h4 h6) cs)
unfolding counts
run-fresh-Follows h4 h6 cs = run-Follows h4 h6 (fresh h4 h6) cs ((refl, refl), (refl, refl))
