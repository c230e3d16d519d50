-- ===== src/Registry/JidOwners/Host/Owned.antt =====
-- An entry stays with its owner while the registry works.
use crate.Base.{
  &&_elim, Bool, Bool-cases, List, Map, Option-cases, SortedFrom, SortedFrom-mono, Text, [], all,
  arith, erase, erase-SortedFrom, find, inl, inr, ltb, none, not, put, put-SortedFrom, refl, some,
  suc, sym, text_eq, true, ℕ, ◌<◌, ◌==◌, ◌∙◌, ◌∷◌, ◌≡◌, ◌≢◌, ◌⊎◌,
}
use crate.Registry.JidOwners.{Entry, lookup_by_name, reconcile, keep_live}
use crate.Registry.JidOwners.Host.{
  Probe, Op, create, forget, forget_name, reconcile_all, look_jid, look_name, record_create,
  forget_by_jid, forget_by_name, is_live, drop_if_stale, lookup_by_jid, lookup_name, step, run,
}

-- An entry of the jid, if there is one, is of this uid.
abbrev pub OwnedBy : ℕ → ℕ → Map Entry → Type 0
OwnedBy jid uid [] = Unit {0}
OwnedBy jid uid ((j, e) ∷ m) = ((j ≡ jid) → e.uid ≡ uid) × OwnedBy jid uid m

find-cases :
    (jid j : ℕ) (w : Entry) (m : Map Entry)
    → ((j ≡ jid) × (find jid ((j, w) ∷ m) ≡ some w))
      ⊎ ((j ≢ jid) × (find jid ((j, w) ∷ m) ≡ find jid m))
unfolding find
find-cases jid j w m = elim (Bool-cases (j == jid)) [
  | inl e ↦ inl (ground arith, rw e refl)
  | inr e ↦ inr (ground arith, rw e refl)
]

same_uid : (v e : Entry) → some v ≡ some e → v.uid ≡ e.uid
same_uid v e h = cc

pub OwnedBy-find :
    (jid uid : ℕ) (m : Map Entry) (e : Entry)
    → OwnedBy jid uid m
    → find jid m ≡ some e
    → e.uid ≡ uid
unfolding find
OwnedBy-find jid uid [] e o h = cc
OwnedBy-find jid uid ((j, w) ∷ m) e o h = elim (find-cases jid j w m) [
  | inl (at, here) ↦ sym (same_uid w e (sym here ∙ h)) ∙ o.0 at
  | inr (ne, later) ↦ OwnedBy-find jid uid m e o.1 (sym later ∙ h)
]

OwnedBy-erase : (jid uid k : ℕ) (m : Map Entry) → OwnedBy jid uid m → OwnedBy jid uid (erase k m)
unfolding erase
OwnedBy-erase jid uid k [] o = tt
OwnedBy-erase jid uid k ((j, w) ∷ m) o = elim (Bool-cases (j == k)) [
  | inl e ↦ rw e (OwnedBy-erase jid uid k m o.1)
  | inr e ↦ rw e (o.0, OwnedBy-erase jid uid k m o.1)
]

OwnedBy-put :
    (jid uid k : ℕ) (e : Entry) (m : Map Entry)
    → (k ≡ jid → e.uid ≡ uid)
    → OwnedBy jid uid m
    → OwnedBy jid uid (put k e m)
unfolding put
OwnedBy-put jid uid k e [] here o = (here, tt)
OwnedBy-put jid uid k e ((j, w) ∷ m) here o = elim (Bool-cases (ltb k j)) [
  | inl l ↦ rw l (here, o)
  | inr l ↦ elim (Bool-cases (j == k)) [
    | inl at ↦ rw l (rw at (here, o.1))
    | inr at ↦ rw l (rw at (o.0, OwnedBy-put jid uid k e m here o.1))
  ]
]

OwnedBy-keep_live :
    (jid uid : ℕ) (p : ℕ → Entry → Bool) (m : Map Entry)
    → OwnedBy jid uid m
    → OwnedBy jid uid (keep_live p m)
unfolding keep_live
OwnedBy-keep_live jid uid p [] o = tt
OwnedBy-keep_live jid uid p ((j, e) ∷ m) o = elim (Bool-cases (p j e)) [
  | inl l ↦ rw l (o.0, OwnedBy-keep_live jid uid p m o.1)
  | inr l ↦ rw l (OwnedBy-keep_live jid uid p m o.1)
]

OwnedBy-forget_by_name :
    (jid uid : ℕ) (name : Text) (m : Map Entry)
    → OwnedBy jid uid m
    → OwnedBy jid uid (forget_by_name name m).1
unfolding forget_by_name
OwnedBy-forget_by_name jid uid name [] o = tt
OwnedBy-forget_by_name jid uid name ((j, e) ∷ m) o = elim (Bool-cases (text_eq e.name name)) [
  | inl l ↦ rw l o.1
  | inr l ↦ rw l (o.0, OwnedBy-forget_by_name jid uid name m o.1)
]

OwnedBy-drop_if_stale :
    (jid uid : ℕ) (probe : Probe) (j : ℕ) (e : Entry) (m : Map Entry)
    → OwnedBy jid uid m
    → OwnedBy jid uid (drop_if_stale probe j e m)
unfolding drop_if_stale
OwnedBy-drop_if_stale jid uid probe j e m o = elim (Bool-cases (is_live probe j e)) [
  | inl l ↦ rw l o
  | inr l ↦ rw l (OwnedBy-erase jid uid j m o)
]

-- The operation does not give the jid to somebody.
abbrev pub leaves : ℕ → Op → Bool
leaves jid (create j uid name path) = not (j == jid)
leaves jid _ = true

OwnedBy-step :
    (jid uid : ℕ) (op : Op) (m : Map Entry)
    → leaves jid op ≡ true
    → OwnedBy jid uid m
    → OwnedBy jid uid (step op m)
unfolding step record_create forget_by_jid lookup_by_jid lookup_name reconcile
OwnedBy-step jid uid (create j u name path) m l o =
    OwnedBy-put jid uid j (record { uid = u; name = name; path = path }) m
      (λ e. absurd (ground arith)) o
OwnedBy-step jid uid (forget j) m l o = elim (Option-cases (find j m)) [
  | inl e ↦ rw (e, OwnedBy) o
  | inr (w, e) ↦ rw (e, OwnedBy) (OwnedBy-erase jid uid j m o)
]
OwnedBy-step jid uid (forget_name name) m l o = OwnedBy-forget_by_name jid uid name m o
OwnedBy-step jid uid (reconcile_all none) m l o = o
OwnedBy-step jid uid (reconcile_all (some p)) m l o = OwnedBy-keep_live jid uid p m o
OwnedBy-step jid uid (look_jid probe j) m l o = elim (Option-cases (find j m)) [
  | inl e ↦ rw (e, OwnedBy) o
  | inr (w, e) ↦ rw (e, OwnedBy) (OwnedBy-drop_if_stale jid uid probe j w m o)
]
OwnedBy-step jid uid (look_name probe name) m l o = elim (Option-cases (lookup_by_name m name)) [
  | inl e ↦ rw (e, OwnedBy) o
  | inr (r, e) ↦ elim (Option-cases (find r.0 m)) [
    | inl f ↦ rw (e, OwnedBy) (rw (f, OwnedBy) o)
    | inr (w, f) ↦ rw (e, OwnedBy) (rw (f, OwnedBy) (OwnedBy-drop_if_stale jid uid probe r.0 w m o))
  ]
]

pub OwnedBy-run :
    (jid uid : ℕ) (ops : List Op) (m : Map Entry)
    → all (leaves jid) ops ≡ true
    → OwnedBy jid uid m
    → OwnedBy jid uid (run ops m)
unfolding run
OwnedBy-run jid uid [] m l o = o
OwnedBy-run jid uid (op ∷ ops) m l o =
    let (first, rest) = &&_elim (leaves jid op) (all (leaves jid) ops) l in
    OwnedBy-run jid uid ops (step op m) rest (OwnedBy-step jid uid op m first o)

OwnedBy-above : (jid uid lo : ℕ) (m : Map Entry) → jid < lo → SortedFrom lo m → OwnedBy jid uid m
OwnedBy-above jid uid lo [] l s = tt
OwnedBy-above jid uid lo ((j, e) ∷ m) l s =
    (λ at. absurd (omega (arith, s.0)), OwnedBy-above jid uid (suc j) m (omega (arith, s.0)) s.1)

pub put-OwnedBy :
    (jid lo : ℕ) (e : Entry) (m : Map Entry) → SortedFrom lo m → OwnedBy jid e.uid (put jid e m)
unfolding put
put-OwnedBy jid lo e [] s = (λ _. refl, tt)
put-OwnedBy jid lo e ((j, w) ∷ m) s = elim (Bool-cases (ltb jid j)) [
  | inl l ↦
      rw (l, OwnedBy)
        (λ _. refl, OwnedBy-above jid e.uid j ((j, w) ∷ m) (ground arith) (omega arith, s.1))
  | inr l ↦ elim (Bool-cases (j == jid)) [
    | inl at ↦
        rw (l, OwnedBy)
          (rw (at, OwnedBy) (λ _. refl, OwnedBy-above jid e.uid (suc j) m (ground arith) s.1))
    | inr at ↦
        rw (l, OwnedBy)
          (rw (at, OwnedBy) (λ same. absurd (ground arith), put-OwnedBy jid (suc j) e m s.1))
  ]
]

-- The entries stay in the order of their jids.
keep_live-SortedFrom :
    (lo : ℕ) (p : ℕ → Entry → Bool) (m : Map Entry)
    → SortedFrom lo m
    → SortedFrom lo (keep_live p m)
unfolding keep_live
keep_live-SortedFrom lo p [] s = tt
keep_live-SortedFrom lo p ((j, e) ∷ m) s = elim (Bool-cases (p j e)) [
  | inl l ↦ rw (l, SortedFrom) (s.0, keep_live-SortedFrom (suc j) p m s.1)
  | inr l ↦
      rw (l, SortedFrom)
        (SortedFrom-mono (suc j) lo (keep_live p m) (omega (arith, s.0))
          (keep_live-SortedFrom (suc j) p m s.1))
]

forget_by_name-SortedFrom :
    (lo : ℕ) (name : Text) (m : Map Entry)
    → SortedFrom lo m
    → SortedFrom lo (forget_by_name name m).1
unfolding forget_by_name
forget_by_name-SortedFrom lo name [] s = tt
forget_by_name-SortedFrom lo name ((j, e) ∷ m) s = elim (Bool-cases (text_eq e.name name)) [
  | inl l ↦ rw (l, SortedFrom) (SortedFrom-mono (suc j) lo m (omega (arith, s.0)) s.1)
  | inr l ↦ rw (l, SortedFrom) (s.0, forget_by_name-SortedFrom (suc j) name m s.1)
]

drop_if_stale-SortedFrom :
    (probe : Probe) (j : ℕ) (e : Entry) (m : Map Entry)
    → SortedFrom 0 m
    → SortedFrom 0 (drop_if_stale probe j e m)
unfolding drop_if_stale
drop_if_stale-SortedFrom probe j e m s = elim (Bool-cases (is_live probe j e)) [
  | inl l ↦ rw (l, SortedFrom) s
  | inr l ↦ rw (l, SortedFrom) (erase-SortedFrom 0 j m s)
]

step-SortedFrom : (op : Op) (m : Map Entry) → SortedFrom 0 m → SortedFrom 0 (step op m)
unfolding step record_create forget_by_jid lookup_by_jid lookup_name reconcile
step-SortedFrom (create j u name path) m s =
    put-SortedFrom 0 j (record { uid = u; name = name; path = path }) m (omega arith) s
step-SortedFrom (forget j) m s = elim (Option-cases (find j m)) [
  | inl e ↦ rw (e, SortedFrom) s
  | inr (w, e) ↦ rw (e, SortedFrom) (erase-SortedFrom 0 j m s)
]
step-SortedFrom (forget_name name) m s = forget_by_name-SortedFrom 0 name m s
step-SortedFrom (reconcile_all none) m s = s
step-SortedFrom (reconcile_all (some p)) m s = keep_live-SortedFrom 0 p m s
step-SortedFrom (look_jid probe j) m s = elim (Option-cases (find j m)) [
  | inl e ↦ rw (e, SortedFrom) s
  | inr (w, e) ↦ rw (e, SortedFrom) (drop_if_stale-SortedFrom probe j w m s)
]
step-SortedFrom (look_name probe name) m s = elim (Option-cases (lookup_by_name m name)) [
  | inl e ↦ rw (e, SortedFrom) s
  | inr (r, e) ↦ elim (Option-cases (find r.0 m)) [
    | inl f ↦ rw (e, SortedFrom) (rw (f, SortedFrom) s)
    | inr (w, f) ↦
        rw (e, SortedFrom) (rw (f, SortedFrom) (drop_if_stale-SortedFrom probe r.0 w m s))
  ]
]

pub run-SortedFrom : (ops : List Op) (m : Map Entry) → SortedFrom 0 m → SortedFrom 0 (run ops m)
unfolding run
run-SortedFrom [] m s = s
run-SortedFrom (op ∷ ops) m s = run-SortedFrom ops (step op m) (step-SortedFrom op m s)
