-- ===== src/Registry/FwLease/Keeps.antt =====
-- Every history of the registry object keeps the lease state valid.
use crate.Base.{
  All, Bool, Bool-cases, List, Option-cases, Result-cases, [], erase, erase-SortedFrom, find, inl,
  inr, ltb, none, ok, pos, put-SortedFrom, refl, some, subst, sym, ℕ, ◌∷◌, ◌≡◌, ◌≤◌,
}
use crate.Registry.FwLease.{
  State, Entry, k_max_slots, acquire, release, reconcile, choose_slot, found_entry, mark, Acquired,
}
use crate.Registry.FwLease.Slots.{
  LowestFree, lowest_free_slot_lem, SlotFits, IsValid, choose_slot_cases, acquire_parts,
}
use crate.Registry.FwLease.Distinct.{
  Distinct-put, Distinct-find, Distinct-erase, Distinct-live_only, live_only-SortedFrom,
  slot_used-erase,
}
use crate.Registry.FwLease.Host.{
  Registry, Call, acquires, releases, reconciles, registry_acquire, registry_release,
  registry_reconcile, after, step, run, fresh, apply_transition,
}

found-SlotFits :
    (s : State) (jid : ℕ)
    → IsValid s
    → SlotFits (found_entry (find jid s.leases)).slot (erase jid s.leases)
found-SlotFits s jid v = elim (Option-cases (find jid s.leases)) [
  | inl e ↦ rw e refl
  | inr (w, e) ↦ rw e (Distinct-find jid 1 w s.leases v.sorted v.distinct e)
]

choose-SlotFits :
    (s : State) (jid : ℕ) (want_slot : Bool) (e e' : Entry)
    → SlotFits e.slot (erase jid s.leases)
    → choose_slot s want_slot e ≡ ok e'
    → SlotFits e'.slot (erase jid s.leases)
choose-SlotFits s jid want_slot e e' f h = elim (choose_slot_cases s want_slot e e' h) [
  | inl (same, _) ↦ subst (λ (x : Entry). SlotFits x.slot (erase jid s.leases)) (sym same) f
  | inr (r, lowest, same) ↦
      let free : LowestFree s.leases 0 k_max_slots (pos r) =
        subst (LowestFree s.leases 0 k_max_slots) lowest (lowest_free_slot_lem s k_max_slots) in
      subst (λ (x : Entry). SlotFits x.slot (erase jid s.leases)) (sym same)
        (free.1, slot_used-erase r jid s.leases free.2)
]

-- Every way to change the registry keeps it sorted, its slots in range and no slot held twice.
acquire-IsValid :
    (s : State) (jid : ℕ) (want_slot want4 want6 : Bool) (a : Acquired)
    → IsValid s
    → 1 ≤ jid
    → acquire s jid want_slot want4 want6 ≡ ok a
    → IsValid a.0
acquire-IsValid s jid want_slot want4 want6 a v p h =
    let (e, chosen, state, _) = acquire_parts s jid want_slot want4 want6 a h in
    let fits = choose-SlotFits s jid want_slot _ e (found-SlotFits s jid v) chosen in
    subst IsValid (sym state) (record {
      sorted = put-SortedFrom 1 jid (mark want4 want6 e) s.leases p v.sorted;
      distinct = Distinct-put jid 1 (mark want4 want6 e) s.leases v.sorted fits v.distinct;
    })

release-IsValid : (s : State) (jid : ℕ) → IsValid s → IsValid (release s jid).0
unfolding release
release-IsValid s jid v = elim (Option-cases (find jid s.leases)) [
  | inl e ↦ rw e v
  | inr (w, e) ↦ rw e (record {
    sorted = erase-SortedFrom 1 jid s.leases v.sorted;
    distinct = Distinct-erase jid s.leases v.distinct;
  })
]

reconcile-IsValid : (s : State) (p : ℕ → Bool) → IsValid s → IsValid (reconcile s p).0
unfolding reconcile
reconcile-IsValid s p v = record {
  sorted = live_only-SortedFrom 1 p s.leases v.sorted;
  distinct = Distinct-live_only p s.leases v.distinct;
}

abbrev pub Legal : Call → Type 0
Legal (acquires jid want_slot want4 want6) = 1 ≤ jid
Legal (releases jid) = Unit {0}
Legal (reconciles probe) = Unit {0}

after-IsValid :
    (r : Registry) (jid : ℕ) (want_slot want4 want6 : Bool)
    → IsValid r.state
    → 1 ≤ jid
    → IsValid (after r (registry_acquire r jid want_slot want4 want6)).state
unfolding registry_acquire apply_transition
after-IsValid r jid want_slot want4 want6 v p =
    elim (Result-cases (acquire r.state jid want_slot want4 want6)) [
      | inl (e, bad) ↦ rw bad v
      | inr (a, good) ↦
          let w = acquire-IsValid r.state jid want_slot want4 want6 a v p good in
          rw good (record { sorted = w.sorted; distinct = w.distinct })
    ]

step-IsValid : (r : Registry) (c : Call) → Legal c → IsValid r.state → IsValid (step r c).state
unfolding step registry_release registry_reconcile apply_transition
step-IsValid r (acquires jid want_slot want4 want6) l v =
    after-IsValid r jid want_slot want4 want6 v l
step-IsValid r (releases jid) l v =
    let w = release-IsValid r.state jid v in
    elim (Bool-cases (release r.state jid).2) [
      | inl b ↦ rw b (record { sorted = w.sorted; distinct = w.distinct })
      | inr b ↦ rw b w
    ]
step-IsValid r (reconciles none) l v = v
step-IsValid r (reconciles (some p)) l v =
    let w = reconcile-IsValid r.state p v in
    elim (Bool-cases (ltb 0 (reconcile r.state p).2)) [
      | inl b ↦ rw b (record { sorted = w.sorted; distinct = w.distinct })
      | inr b ↦ rw b w
    ]

run-IsValid :
    (r : Registry) (cs : List Call) → All Legal cs → IsValid r.state → IsValid (run r cs).state
unfolding run
run-IsValid r [] l v = v
run-IsValid r (c ∷ cs) l v = run-IsValid (step r c) cs l.1 (step-IsValid r c l.0 v)

-- After any history of a daemon that starts with no leases and acquires for jids from 1 on only, the
-- leases are in order of their jids, every slot is -1 or below 1500, and no two leases have the same.
pub run-fresh-IsValid :
    (h4 h6 : ℕ) (cs : List Call) → All Legal cs → IsValid (run (fresh h4 h6) cs).state
run-fresh-IsValid h4 h6 cs l =
    run-IsValid (fresh h4 h6) cs l (record { sorted = tt; distinct = tt })
