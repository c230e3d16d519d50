-- ===== src/Privops/Authz.antt =====
-- The ownership gate of every privileged verb: lib/privops_authz_pure.{h,cpp}. A callback of
-- `OwnerLookup` that may be unset is an `Option`; the registries behind them are in crate.Registry.
pub mod Slices
pub mod Names
pub mod Access
pub mod Tenants
use crate.Base.{
  Bool, Option, Text, [], codes, drop, false, has, if◌then◌else◌, is_digit, is_empty, last_or, leb,
  length, ltb, none, not, refl, some, starts_with, text_eq, true, ℕ, ◌&&◌, ◌+◌, ◌==◌, ◌||◌, ◌∷◌,
  ◌≡◌,
}
use crate.Privops.Verbs.{
  Verb, attach_zfs, detach_zfs, add_pf_rule, remove_pf_rule, flush_pf_anchor, set_loginclass_rctl,
  clear_loginclass_rctl, set_rctl, clear_rctl, set_jail_cpuset, query_jail_rctl, signal_jail,
  acquire_fw_lease, release_fw_lease, configure_iface, teardown_iface, set_iface_up,
  disable_iface_offload, set_iface_inet_addr, set_iface_mac, bridge_add_member, bridge_del_member,
  exec_in_jail, destroy_jail, reclaim_iface_from_vnet, create_jail, unmount_nullfs,
  apply_devfs_ruleset, mount_tmpfs, apply_devfs_rules, add_devfs_unhide_rule, mount_nullfs,
}
use crate.Privops.UserEnv.{Env}

pub data Decision : Type 0 where
  allow deny_foreign_dataset deny_foreign_loginclass deny_foreign_jid deny_foreign_jail_name :
      Decision
  deny_foreign_path deny_foreign_create_path deny_foreign_source deny_unowned_path : Decision
  deny_foreign_anchor deny_unowned_jid deny_foreign_iface deny_host_iface : Decision
  deny_foreign_devfs_ruleset deny_devfs_shared_ruleset : Decision

pub record Owner : Type 0 where
  pub known : Bool
  pub uid : ℕ

pub record OwnerLookup : Type 0 where
  pub by_jid : Option (ℕ → Owner)
  pub by_name : Option (Text → Owner)
  pub by_path : Option (Text → Owner)
  pub by_iface : Option (Text → Owner)
  pub by_devfs_ruleset : Option (ℕ → Owner)

pub record Request : Type 0 where
  pub dataset : Text
  pub loginclass : Text
  pub jail_name : Text
  pub jid : ℕ
  pub path : Text
  pub source : Text
  pub anchor : Text
  pub ifname : Text
  pub devfs_ruleset : ℕ

-- `value[prefix.size()] == '/'` behind the test that `value` starts with `prefix`.
abbrev pub head_is : ℕ → Text → Bool
head_is c [] = false
head_is c (b ∷ s) = b == c

unfoldable pub owned_under : Text → Text → Bool
owned_under value prefix =
    if is_empty prefix
    then true
    else if text_eq value prefix
    then true
    else ltb (length prefix) (length value)
      && (starts_with prefix value
          && (last_or 0 prefix == b'/' || head_is b'/' (drop (length prefix) value)))

abbrev pub dataset_owned : Text → Text → Bool
dataset_owned dataset zfs_prefix = owned_under dataset zfs_prefix

abbrev pub path_owned : Text → Text → Bool
path_owned path path_prefix = owned_under path path_prefix

abbrev pub null_owner : Owner
null_owner = record { known = false; uid = 0 }

pub null_lookup : OwnerLookup
null_lookup = record {
  by_jid = some (λ _. null_owner);
  by_name = some (λ _. null_owner);
  by_path = some (λ _. null_owner);
  by_iface = none;
  by_devfs_ruleset = none;
}

-- `name[i] >= '0' && name[i] <= '9'` up to the last character, which is `a` or `b`; the loop must
-- have moved over a digit.
epair_tail : Bool → Text → Bool
epair_tail moved [] = false
epair_tail moved (c ∷ []) = moved && (c == b'a' || c == b'b')
epair_tail moved (c ∷ d ∷ s) = is_digit c && epair_tail true (d ∷ s)

abbrev pub epair_prefix : Text
epair_prefix = codes "epair"

unfoldable pub is_epair_iface_name : Text → Bool
unfolding epair_tail
is_epair_iface_name name =
    if ltb (length name) (length epair_prefix + 2)
    then false
    else if not (starts_with epair_prefix name)
    then false
    else epair_tail false (drop (length epair_prefix) name)

abbrev pub anchor_prefix : Text
anchor_prefix = codes "crate/"

unfoldable pub anchor_jail_name : Text → Text
anchor_jail_name anchor =
    if leb (length anchor) (length anchor_prefix)
    then []
    else if not (starts_with anchor_prefix anchor)
    then []
    else let rest = drop (length anchor_prefix) anchor in if has b'/' rest then [] else rest

abbrev pub k_private_devfs_ruleset_min : ℕ
k_private_devfs_ruleset_min = 10000

abbrev pub k_private_devfs_ruleset_max : ℕ
k_private_devfs_ruleset_max = 59999

abbrev pub is_private_devfs_ruleset : ℕ → Bool
is_private_devfs_ruleset number =
    leb k_private_devfs_ruleset_min number && leb number k_private_devfs_ruleset_max

-- `o.uid == env.uid ? Decision::Allow : deny`.
abbrev pub own_or : Owner → Env → Decision → Decision
own_or o env deny = if o.uid == env.uid then allow else deny

unfoldable pub check_owned_jid : ℕ → Env → OwnerLookup → Decision
check_owned_jid jid env lookup = elim lookup.by_jid [
  | none ↦ allow
  | some f ↦ if not (f jid).known then allow else own_or (f jid) env deny_foreign_jid
]

unfoldable pub check_owned_jid_strict : ℕ → Env → OwnerLookup → Decision
check_owned_jid_strict jid env lookup = elim lookup.by_jid [
  | none ↦ deny_unowned_jid
  | some f ↦ if not (f jid).known then deny_unowned_jid else own_or (f jid) env deny_foreign_jid
]

unfoldable pub check_owned_iface : Text → Env → OwnerLookup → Decision
check_owned_iface ifname env lookup = elim lookup.by_iface [
  | none ↦ allow
  | some f ↦
      if not (is_epair_iface_name ifname)
      then deny_host_iface
      else if not (f ifname).known
      then allow
      else own_or (f ifname) env deny_foreign_iface
]

unfoldable pub check_owned_devfs_ruleset : ℕ → Env → OwnerLookup → Decision
check_owned_devfs_ruleset number env lookup =
    if not (is_private_devfs_ruleset number)
    then deny_foreign_devfs_ruleset
    else elim lookup.by_devfs_ruleset [
      | none ↦ allow
      | some f ↦
          if not (f number).known then allow else own_or (f number) env deny_foreign_devfs_ruleset
    ]

unfoldable pub check_owned_name : Text → Env → OwnerLookup → Decision
check_owned_name name env lookup = elim lookup.by_name [
  | none ↦ allow
  | some f ↦ if not (f name).known then allow else own_or (f name) env deny_foreign_jail_name
]

abbrev pub path_owner : Text → OwnerLookup → Owner
path_owner path lookup = elim lookup.by_path [ none ↦ null_owner | some f ↦ f path ]

unfoldable pub check_owned_path : Text → Env → OwnerLookup → Decision
check_owned_path path env lookup =
    let o = path_owner path lookup in
    if o.known
    then own_or o env deny_foreign_path
    else if is_empty env.path_master_prefix
    then allow
    else if path_owned path env.path_prefix
    then allow
    else deny_unowned_path

unfoldable pub source_foreign : Text → Env → Bool
source_foreign source env =
    if is_empty env.path_master_prefix
    then false
    else path_owned source env.path_master_prefix && not (path_owned source env.path_prefix)

-- `if (d != Decision::Allow) return d; return next;`.
abbrev pub and_then : Decision → Decision → Decision
and_then allow next = next
and_then d next = d

-- `d == Decision::DenyForeignJailName ? Decision::DenyForeignAnchor : d`.
abbrev pub as_anchor : Decision → Decision
as_anchor deny_foreign_jail_name = deny_foreign_anchor
as_anchor d = d

unfoldable pub check_anchor : Request → Env → OwnerLookup → Decision
check_anchor req env lookup =
    let jail = anchor_jail_name req.anchor in
    if is_empty jail then deny_foreign_anchor else as_anchor (check_owned_name jail env lookup)

unfoldable pub check_dataset : Request → Env → OwnerLookup → Decision
check_dataset req env lookup =
    if not (dataset_owned req.dataset env.zfs_prefix)
    then deny_foreign_dataset
    else check_owned_jid req.jid env lookup

abbrev pub check_loginclass : Request → Env → Decision
check_loginclass req env =
    if text_eq req.loginclass env.loginclass then allow else deny_foreign_loginclass

unfoldable pub authorize : Verb → Request → Env → OwnerLookup → Decision
authorize attach_zfs req env l = check_dataset req env l
authorize detach_zfs req env l = check_dataset req env l
authorize add_pf_rule req env l = check_anchor req env l
authorize remove_pf_rule req env l = check_anchor req env l
authorize flush_pf_anchor req env l = check_anchor req env l
authorize set_loginclass_rctl req env l = check_loginclass req env
authorize clear_loginclass_rctl req env l = check_loginclass req env
authorize set_rctl req env l = check_owned_jid req.jid env l
authorize clear_rctl req env l = check_owned_jid req.jid env l
authorize set_jail_cpuset req env l = check_owned_jid req.jid env l
authorize query_jail_rctl req env l = check_owned_jid req.jid env l
authorize signal_jail req env l = check_owned_jid req.jid env l
authorize acquire_fw_lease req env l = check_owned_jid req.jid env l
authorize release_fw_lease req env l = check_owned_jid req.jid env l
authorize configure_iface req env l =
    and_then (check_owned_jid req.jid env l) (check_owned_iface req.ifname env l)
authorize teardown_iface req env l = check_owned_iface req.ifname env l
authorize set_iface_up req env l = check_owned_iface req.ifname env l
authorize disable_iface_offload req env l = check_owned_iface req.ifname env l
authorize set_iface_inet_addr req env l = check_owned_iface req.ifname env l
authorize set_iface_mac req env l = check_owned_iface req.ifname env l
authorize bridge_add_member req env l = check_owned_iface req.ifname env l
authorize bridge_del_member req env l = check_owned_iface req.ifname env l
authorize exec_in_jail req env l = check_owned_jid_strict req.jid env l
authorize destroy_jail req env l = check_owned_name req.jail_name env l
authorize reclaim_iface_from_vnet req env l =
    and_then (check_owned_name req.jail_name env l) (check_owned_iface req.ifname env l)
authorize create_jail req env l =
    if path_owned req.path env.path_prefix then allow else deny_foreign_create_path
authorize unmount_nullfs req env l = check_owned_path req.path env l
authorize apply_devfs_ruleset req env l = check_owned_path req.path env l
authorize mount_tmpfs req env l = check_owned_path req.path env l
authorize apply_devfs_rules req env l =
    and_then (check_owned_path req.path env l) (check_owned_devfs_ruleset req.devfs_ruleset env l)
authorize add_devfs_unhide_rule req env l =
    and_then (check_owned_path req.path env l) deny_devfs_shared_ruleset
authorize mount_nullfs req env l =
    and_then (check_owned_path req.path env l)
      (if source_foreign req.source env then deny_foreign_source else allow)
authorize _ req env l = allow

-- The overload without a registry.
abbrev authorize_without_registry : Verb → Text → Text → Env → Decision
authorize_without_registry v dataset loginclass env =
    let req : Request = record {
      dataset = dataset;
      loginclass = loginclass;
      jail_name = [];
      jid = 0;
      path = [];
      source = [];
      anchor = [];
      ifname = [];
      devfs_ruleset = 0;
    } in
    authorize v req env null_lookup

abbrev decision_reason : Decision → Text
decision_reason allow = codes "allow"
decision_reason deny_foreign_dataset = codes "dataset is outside the caller's per-user ZFS prefix"
decision_reason deny_foreign_loginclass =
    codes "loginclass is not the caller's crate-<uid> umbrella"
decision_reason deny_foreign_jid = codes "jid is owned by a different operator"
decision_reason deny_foreign_jail_name = codes "jail name is owned by a different operator"
decision_reason deny_foreign_path = codes "path lies inside a jail owned by a different operator"
decision_reason deny_foreign_create_path =
    codes "create_jail path is outside the caller's per-user path prefix"
decision_reason deny_foreign_source =
    codes "mount source lies inside another operator's per-user path prefix"
decision_reason deny_unowned_path =
    codes
      "path is neither inside a jail owned by the caller nor inside the caller's per-user path prefix"
decision_reason deny_foreign_anchor =
    codes "pf anchor is not a crate/<jail> anchor of a jail owned by the caller"
decision_reason deny_unowned_jid =
    codes
      "jid is not registered to the caller (exec_in_jail requires a jail created through privops by the same operator)"
decision_reason deny_foreign_iface =
    codes "interface is an epair half created by a different operator"
decision_reason deny_host_iface =
    codes "interface is not an epair half; host interfaces cannot be named by a per-user caller"
decision_reason deny_foreign_devfs_ruleset =
    codes "devfs ruleset is outside the private range 10000..59999 or in use by another jail"
decision_reason deny_devfs_shared_ruleset =
    codes
      "add_devfs_unhide_rule edits the devfs ruleset the mount uses, which other jails may share; use apply_devfs_rules with a private ruleset"

bridge_of_the_host : is_epair_iface_name (codes "em0") ≡ false
unfolding is_epair_iface_name
bridge_of_the_host = refl

jail_half : is_epair_iface_name (codes "epair12b") ≡ true
unfolding is_epair_iface_name
jail_half = refl

web_anchor : anchor_jail_name (codes "crate/web_pid7") ≡ codes "web_pid7"
unfolding anchor_jail_name
web_anchor = refl
