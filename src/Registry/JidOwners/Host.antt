-- ===== src/Registry/JidOwners/Host.antt =====
-- The registry object that the daemon keeps: lib/jid_owner_registry.cpp. Each operation holds the
-- lock, so the state is the map of entries; the file is written behind each change and is left out.
-- The probe asks the kernel, so an operation takes the one of its moment.
pub mod Owned
pub mod Gate
use crate.Base.{
  Bool, List, Map, Option, Text, [], erase, false, find, if◌then◌else◌, none, put, some, text_eq,
  true, ℕ, ◌∷◌,
}
use crate.Privops.Authz.{Owner, OwnerLookup, null_owner}
use crate.Registry.JidOwners.{Entry, lookup_by_name, find_owner_by_path, reconcile}

abbrev pub Probe : Type 0
Probe = Option (ℕ → Entry → Bool)

unfoldable pub record_create : ℕ → ℕ → Text → Text → Map Entry → Map Entry
unfolding put
record_create jid uid name path m = put jid (record { uid = uid; name = name; path = path }) m

unfoldable pub forget_by_jid : ℕ → Map Entry → Bool × Map Entry
unfolding find erase
forget_by_jid jid m = elim (find jid m) [ none ↦ (false, m) | some _ ↦ (true, erase jid m) ]

abbrev also_keep : ℕ × Entry → Bool × Map Entry → Bool × Map Entry
also_keep r (found, m) = (found, r ∷ m)

unfoldable pub forget_by_name : Text → Map Entry → Bool × Map Entry
forget_by_name name [] = (false, [])
forget_by_name name ((j, e) ∷ m) =
    let rest = forget_by_name name m in
    if text_eq e.name name then (true, m) else also_keep (j, e) rest

-- `!probe_ || probe_(jid, entry)`.
abbrev pub is_live : Probe → ℕ → Entry → Bool
is_live none j e = true
is_live (some p) j e = p j e

-- What is left after `dropIfStaleLocked_`, which returns `!is_live`.
unfoldable pub drop_if_stale : Probe → ℕ → Entry → Map Entry → Map Entry
unfolding erase
drop_if_stale probe j e m = if is_live probe j e then m else erase j m

abbrev pub owner_if : Bool → ℕ → Owner
owner_if known uid = if known then record { known = true; uid = uid } else null_owner

unfoldable pub lookup_by_jid : Probe → ℕ → Map Entry → Owner × Map Entry
unfolding find drop_if_stale
lookup_by_jid probe jid m = elim (find jid m) [
  | none ↦ (null_owner, m)
  | some e ↦ (owner_if (is_live probe jid e) e.uid, drop_if_stale probe jid e m)
]

abbrev owner_named : Probe → Map Entry → ℕ × Entry → Option Entry → Owner × Map Entry
owner_named probe m r none = (null_owner, m)
owner_named probe m r (some e) =
    (owner_if (is_live probe r.0 e) r.1.uid, drop_if_stale probe r.0 e m)

unfoldable pub lookup_name : Probe → Text → Map Entry → Owner × Map Entry
unfolding find drop_if_stale lookup_by_name
lookup_name probe name m = elim (lookup_by_name m name) [
  | none ↦ (null_owner, m)
  | some r ↦ owner_named probe m r (find r.0 m)
]

unfoldable pub lookup_by_path : Text → Map Entry → Owner
unfolding find_owner_by_path
lookup_by_path path m = elim (find_owner_by_path m path) [
  | none ↦ null_owner
  | some r ↦ owner_if true r.1.uid
]

-- The probes that the gate is handed; each is called once for a request at most.
unfoldable pub make_lookup : Probe → Map Entry → OwnerLookup
unfolding lookup_by_jid lookup_name lookup_by_path
make_lookup probe m = record {
  by_jid = some (λ jid. (lookup_by_jid probe jid m).0);
  by_name = some (λ name. (lookup_name probe name m).0);
  by_path = some (λ path. lookup_by_path path m);
  by_iface = none;
  by_devfs_ruleset = none;
}

-- What the daemon does with the registry.
pub data Op : Type 0 where
  create : ℕ → ℕ → Text → Text → Op
  forget : ℕ → Op
  forget_name : Text → Op
  reconcile_all : Probe → Op
  look_jid : Probe → ℕ → Op
  look_name : Probe → Text → Op

unfoldable pub step : Op → Map Entry → Map Entry
unfolding record_create forget_by_jid forget_by_name lookup_by_jid lookup_name reconcile
step (create jid uid name path) m = record_create jid uid name path m
step (forget jid) m = (forget_by_jid jid m).1
step (forget_name name) m = (forget_by_name name m).1
step (reconcile_all probe) m = (reconcile m probe).0
step (look_jid probe jid) m = (lookup_by_jid probe jid m).1
step (look_name probe name) m = (lookup_name probe name m).1

unfoldable pub run : List Op → Map Entry → Map Entry
unfolding step
run [] m = m
run (op ∷ ops) m = run ops (step op m)
