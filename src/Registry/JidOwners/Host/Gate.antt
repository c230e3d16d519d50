-- ===== src/Registry/JidOwners/Host/Gate.antt =====
-- The gate over the registry: who may enter a jail or mount below it, whatever has happened since the
-- jail was created.
use mathlib.Core.List.{Memᴰ}
use mathlib.Core.List.Memᴰ
use crate.Base.{
  All, Bool, List, Map, Option, Option-cases, Text, [], all, ap, false, find, if◌then◌else◌, inl,
  inr, none, refl, some, subst, sym, true, ℕ, ◌∙◌, ◌∷◌, ◌≡◌, ◌⊎◌,
}
use crate.Privops.Authz.{null_owner, Request, Owner, allow, authorize}
use crate.Privops.Authz.Access.{Resource, demands, MayUse, recorded, authorize_iff}
use crate.Privops.Authz.Slices.{Under}
use crate.Privops.UserEnv.{Env}
use crate.Privops.Verbs.{Verb, exec_in_jail}
use crate.Registry.JidOwners.{Entry, find_owner_by_path}
use crate.Registry.JidOwners.Lookup.{IsInnermost, find_owner_by_path-IsInnermost}
use crate.Registry.JidOwners.Host.{
  owner_if, Probe, Op, record_create, is_live, lookup_by_jid, lookup_by_path, make_lookup, run,
}
use crate.Registry.JidOwners.Host.Owned.{
  OwnedBy-find, OwnedBy-run, run-SortedFrom, put-OwnedBy, leaves,
}

abbrev known_uid : Owner → Option ℕ
known_uid o = if o.known then some o.uid else none

lookup_by_jid-cases :
    (probe : Probe) (jid : ℕ) (m : Map Entry)
    → ((lookup_by_jid probe jid m).0 ≡ null_owner)
      ⊎ ((e : Entry) × (find jid m ≡ some e)
          × ((lookup_by_jid probe jid m).0 ≡ owner_if (is_live probe jid e) e.uid))
unfolding lookup_by_jid
lookup_by_jid-cases probe jid m = elim (Option-cases (find jid m)) [
  | inl gone ↦ inl (rw (gone, lookup_by_jid) refl)
  | inr (e, there) ↦ inr (e, there, rw (there, lookup_by_jid) refl)
]

known-owner_if : (b : Bool) (u v : ℕ) → known_uid (owner_if b u) ≡ some v → (b ≡ true) × (u ≡ v)
known-owner_if true u v h = (refl, some-number u v h)
  where
    some-number : (u v : ℕ) → some u ≡ some v → u ≡ v
    some-number u v h = cc
known-owner_if false u v h = cc

recorded_jid :
    (probe : Probe) (m : Map Entry) (jid uid : ℕ)
    → recorded (make_lookup probe m).by_jid jid ≡ some uid
    → (e : Entry) × (find jid m ≡ some e) × (is_live probe jid e ≡ true) × (e.uid ≡ uid)
unfolding make_lookup
recorded_jid probe m jid uid h = elim (lookup_by_jid-cases probe jid m) [
  | inl gone ↦ let bad = sym (ap known_uid gone) ∙ h in cc
  | inr (e, there, at) ↦
      let (live, own) =
        known-owner_if (is_live probe jid e) e.uid uid (sym (ap known_uid at) ∙ h) in
      (e, there, live, own)
]

abbrev uid_of : Option (ℕ × Entry) → Option ℕ
uid_of none = none
uid_of (some r) = some r.1.uid

abbrev path_owner_of : Option (ℕ × Entry) → Owner
path_owner_of none = null_owner
path_owner_of (some r) = owner_if true r.1.uid

recorded_path :
    (probe : Probe) (m : Map Entry) (p : Text)
    → recorded (make_lookup probe m).by_path p ≡ uid_of (find_owner_by_path m p)
unfolding make_lookup lookup_by_path
recorded_path probe m p = elim (Option-cases (find_owner_by_path m p)) [
  | inl gone ↦ ap (λ o. known_uid (path_owner_of o)) gone ∙ ap uid_of (sym gone)
  | inr (r, there) ↦ ap (λ o. known_uid (path_owner_of o)) there ∙ ap uid_of (sym there)
]

-- A jail is created on a registry with any history, and whatever happens to the registry then, as
-- long as the jid is not given to another jail, and however the probe answers: the gate lets a caller
-- run a command in the jail only if the caller's uid is that of the creation.
pub exec_after_create :
    (earlier : List Op) (jid uid : ℕ) (name path : Text) (ops : List Op) (probe : Probe) (env : Env)
    (req : Request)
    → all (leaves jid) ops ≡ true
    → req.jid ≡ jid
    → authorize exec_in_jail req env
        (make_lookup probe (run ops (record_create jid uid name path (run earlier []))))
      ≡ allow
    → uid ≡ env.uid
unfolding record_create
exec_after_create earlier jid uid name path ops probe env req kept at h =
    let m = run earlier [] in
    let now = run ops (record_create jid uid name path m) in
    let mine = ((authorize_iff exec_in_jail req env (make_lookup probe now)).0 h).0 in
    let (e, there, _, own) = recorded_jid probe now req.jid env.uid mine in
    let created =
      put-OwnedBy jid 0 (record { uid = uid; name = name; path = path }) m
        (run-SortedFrom earlier [] tt) in
    let owned = OwnedBy-run jid uid ops (record_create jid uid name path m) kept created in
    sym (OwnedBy-find jid uid now e owned (ap (λ j. find j now) (sym at) ∙ there)) ∙ own

All-Memᴰ : {A : Type 0} (P : A → Type 0) (xs : List A) (x : A) → All P xs → Memᴰ x xs → P x
All-Memᴰ P [] x a m = absurd (Memᴰ.not-nil m)
All-Memᴰ P (y ∷ ys) x a m = elim (Memᴰ.cases_cons m) [
  | inl same ↦ subst P (sym same) a.0
  | inr below ↦ All-Memᴰ P ys x a.1 below
]

uid_of-cases :
    (o : Option (ℕ × Entry)) (uid : ℕ)
    → uid_of o ≡ some uid
    → (r : ℕ × Entry) × (o ≡ some r) × (r.1.uid ≡ uid)
uid_of-cases none uid h = cc
uid_of-cases (some r) uid h = (r, refl, cc)

uid_of-none : (o : Option (ℕ × Entry)) → uid_of o ≡ none → o ≡ none
uid_of-none none h = refl
uid_of-none (some r) h = cc

-- A path that a request works below, whatever its verb: if the gate lets the request in, the
-- innermost registered jail around the path is the caller's, or the path is in no registered jail and
-- below the caller's own prefix, where tenants have prefixes at all.
pub path_in_own_jail :
    (v : Verb) (req : Request) (p : Text) (probe : Probe) (m : Map Entry) (env : Env)
    → Memᴰ (Resource.path p) (demands v req)
    → authorize v req env (make_lookup probe m) ≡ allow
    → ((r : ℕ × Entry) × IsInnermost p m (some r) × (r.1.uid ≡ env.uid))
      ⊎ (IsInnermost p m none × ((env.path_master_prefix ≡ []) ⊎ Under p env.path_prefix))
path_in_own_jail v req p probe m env named h =
    let l = make_lookup probe m in
    let may =
      All-Memᴰ (MayUse env l) (demands v req) (Resource.path p) ((authorize_iff v req env l).0 h)
        named in
    let inner = find_owner_by_path-IsInnermost m p in
    elim may [
      | inl mine ↦
          let (r, there, own) =
            uid_of-cases (find_owner_by_path m p) env.uid (sym (recorded_path probe m p) ∙ mine) in
          inl (r, subst (IsInnermost p m) there inner, own)
      | inr (nobody, mine) ↦
          let gone =
            uid_of-none (find_owner_by_path m p) (sym (recorded_path probe m p) ∙ nobody) in
          inr (subst (IsInnermost p m) gone inner, mine)
    ]
