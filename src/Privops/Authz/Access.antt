-- ===== src/Privops/Authz/Access.antt =====
-- The gate against an access policy: which resources a verb names, and who may use a resource.
use crate.Base.{
  All, Bool-cases, List, Option, Text, [], arith, if◌then◌else◌, inl, inr, none, refl, some,
  text_eq_refl, text_eq→eq, true, ℕ, ◌↔◌, ◌∷◌, ◌≡◌, ◌≢◌, ◌≤◌, ◌⊎◌,
}
use crate.Privops.Verbs.{Verb}
use crate.Privops.UserEnv.{Env}
use crate.Privops.Authz.{
  allow, Owner, OwnerLookup, Request, is_epair_iface_name, anchor_jail_name, check_owned_jid,
  check_owned_jid_strict, check_owned_iface, check_owned_devfs_ruleset, check_owned_name,
  check_owned_path, path_owned, Decision, check_anchor, check_loginclass, check_dataset,
  source_foreign, deny_foreign_create_path, deny_foreign_source, and_then, authorize, owned_under,
  deny_devfs_shared_ruleset,
}
use crate.Privops.Authz.Slices.{Under, owned_under_iff}

-- The uid that a registry records, if there is a registry and it knows the key.
abbrev pub recorded : {K : Type 0} → Option (K → Owner) → K → Option ℕ
recorded none k = none
recorded (some f) k = if (f k).known then some (f k).uid else none

-- A resource that a request names, with the claim that the verb makes on it.
pub data Resource : Type 0 where
  dataset loginclass jail_name anchor iface path new_path mount_source : Text → Resource
  jid exec_jid devfs_ruleset : ℕ → Resource
  shared_ruleset : Resource

abbrev pub demands : Verb → Request → List Resource
demands Verb.attach_zfs r = dataset r.dataset ∷ jid r.jid ∷ []
demands Verb.detach_zfs r = dataset r.dataset ∷ jid r.jid ∷ []
demands Verb.add_pf_rule r = anchor r.anchor ∷ []
demands Verb.remove_pf_rule r = anchor r.anchor ∷ []
demands Verb.flush_pf_anchor r = anchor r.anchor ∷ []
demands Verb.set_loginclass_rctl r = loginclass r.loginclass ∷ []
demands Verb.clear_loginclass_rctl r = loginclass r.loginclass ∷ []
demands Verb.set_rctl r = jid r.jid ∷ []
demands Verb.clear_rctl r = jid r.jid ∷ []
demands Verb.set_jail_cpuset r = jid r.jid ∷ []
demands Verb.query_jail_rctl r = jid r.jid ∷ []
demands Verb.signal_jail r = jid r.jid ∷ []
demands Verb.acquire_fw_lease r = jid r.jid ∷ []
demands Verb.release_fw_lease r = jid r.jid ∷ []
demands Verb.configure_iface r = jid r.jid ∷ iface r.ifname ∷ []
demands Verb.teardown_iface r = iface r.ifname ∷ []
demands Verb.set_iface_up r = iface r.ifname ∷ []
demands Verb.disable_iface_offload r = iface r.ifname ∷ []
demands Verb.set_iface_inet_addr r = iface r.ifname ∷ []
demands Verb.set_iface_mac r = iface r.ifname ∷ []
demands Verb.bridge_add_member r = iface r.ifname ∷ []
demands Verb.bridge_del_member r = iface r.ifname ∷ []
demands Verb.exec_in_jail r = exec_jid r.jid ∷ []
demands Verb.destroy_jail r = jail_name r.jail_name ∷ []
demands Verb.reclaim_iface_from_vnet r = jail_name r.jail_name ∷ iface r.ifname ∷ []
demands Verb.create_jail r = new_path r.path ∷ []
demands Verb.unmount_nullfs r = path r.path ∷ []
demands Verb.apply_devfs_ruleset r = path r.path ∷ []
demands Verb.mount_tmpfs r = path r.path ∷ []
demands Verb.apply_devfs_rules r = path r.path ∷ devfs_ruleset r.devfs_ruleset ∷ []
demands Verb.add_devfs_unhide_rule r = path r.path ∷ shared_ruleset ∷ []
demands Verb.mount_nullfs r = path r.path ∷ mount_source r.source ∷ []
demands _ r = []

-- Nobody else is known to own the key.
abbrev pub NotForeign : {K : Type 0} → Option (K → Owner) → K → ℕ → Type 0
NotForeign f k uid = (recorded f k ≡ none) ⊎ (recorded f k ≡ some uid)

abbrev pub MayUse : Env → OwnerLookup → Resource → Type 0
MayUse env l (dataset d) = Under d env.zfs_prefix
MayUse env l (loginclass c) = c ≡ env.loginclass
MayUse env l (jid j) = NotForeign l.by_jid j env.uid
-- Running a command needs a recorded jail of the caller.
MayUse env l (exec_jid j) = recorded l.by_jid j ≡ some env.uid
MayUse env l (jail_name n) = NotForeign l.by_name n env.uid
MayUse env l (anchor a) =
    (anchor_jail_name a ≢ []) × NotForeign l.by_name (anchor_jail_name a) env.uid
MayUse env l (iface i) =
    (l.by_iface ≡ none) ⊎ ((is_epair_iface_name i ≡ true) × NotForeign l.by_iface i env.uid)
MayUse env l (devfs_ruleset n) = (10000 ≤ n) × (n ≤ 59999) × NotForeign l.by_devfs_ruleset n env.uid
MayUse env l (path p) =
    (recorded l.by_path p ≡ some env.uid)
    ⊎ ((recorded l.by_path p ≡ none) × ((env.path_master_prefix ≡ []) ⊎ Under p env.path_prefix))
MayUse env l (new_path p) = Under p env.path_prefix
MayUse env l (mount_source s) =
    (env.path_master_prefix ≡ []) ⊎ ((¬ Under s env.path_master_prefix) ⊎ Under s env.path_prefix)
MayUse env l shared_ruleset = ⊥

check_owned_jid_iff :
    (j : ℕ) (env : Env) (l : OwnerLookup) → (check_owned_jid j env l ≡ allow) ↔ MayUse env l (jid j)
unfolding check_owned_jid
check_owned_jid_iff j env l = (λ h. ground (arith), λ h. ground (arith))

check_owned_jid_strict_iff :
    (j : ℕ) (env : Env) (l : OwnerLookup)
    → (check_owned_jid_strict j env l ≡ allow) ↔ MayUse env l (exec_jid j)
unfolding check_owned_jid_strict
check_owned_jid_strict_iff j env l = (λ h. ground (arith), λ h. ground (arith))

check_owned_iface_iff :
    (i : Text) (env : Env) (l : OwnerLookup)
    → (check_owned_iface i env l ≡ allow) ↔ MayUse env l (iface i)
unfolding check_owned_iface
check_owned_iface_iff i env l = (λ h. ground (arith), λ h. ground (arith))

check_owned_devfs_ruleset_iff :
    (n : ℕ) (env : Env) (l : OwnerLookup)
    → (check_owned_devfs_ruleset n env l ≡ allow) ↔ MayUse env l (devfs_ruleset n)
unfolding check_owned_devfs_ruleset
check_owned_devfs_ruleset_iff n env l = (λ h. ground (arith), λ h. ground (arith))

check_owned_name_iff :
    (n : Text) (env : Env) (l : OwnerLookup)
    → (check_owned_name n env l ≡ allow) ↔ MayUse env l (jail_name n)
unfolding check_owned_name
check_owned_name_iff n env l = (λ h. ground (arith), λ h. ground (arith))

check_owned_path_iff :
    (p : Text) (env : Env) (l : OwnerLookup)
    → (check_owned_path p env l ≡ allow) ↔ MayUse env l (path p)
unfolding check_owned_path
check_owned_path_iff p env l =
    let (sound, complete) = owned_under_iff p env.path_prefix in
    (λ h. ground (arith, sound), λ h. ground (arith, complete))

check_owned_new_path_iff :
    (p : Text) (env : Env) (l : OwnerLookup)
    → ((if path_owned p env.path_prefix then allow else deny_foreign_create_path) ≡ allow)
      ↔ MayUse env l (new_path p)
check_owned_new_path_iff p env l =
    let (sound, complete) = owned_under_iff p env.path_prefix in
    (λ h. sound (ground arith), λ h. ground (arith, complete h))

check_source_iff :
    (p : Text) (env : Env) (l : OwnerLookup)
    → ((if source_foreign p env then deny_foreign_source else allow) ≡ allow)
      ↔ MayUse env l (mount_source p)
unfolding source_foreign
check_source_iff p env l =
    let (inside, is_inside) = owned_under_iff p env.path_master_prefix in
    let (own, is_own) = owned_under_iff p env.path_prefix in
    (
      λ h. elim (Bool-cases (owned_under p env.path_prefix)) [
        | inl mine ↦ inr (inr (own mine))
        | inr other ↦ elim (Bool-cases (owned_under p env.path_master_prefix)) [
          | inl tenant ↦ inl (ground arith)
          | inr host ↦ inr (inl (λ u. cc (is_inside u, host)))
        ]
      ],
      λ h. ground (arith, inside, is_inside, own, is_own),
    )

check_loginclass_iff :
    (r : Request) (env : Env) (l : OwnerLookup)
    → (check_loginclass r env ≡ allow) ↔ MayUse env l (loginclass r.loginclass)
check_loginclass_iff r env l = (
  λ h. text_eq→eq r.loginclass env.loginclass (ground arith),
  λ h. rw h (rw (text_eq_refl env.loginclass)),
)

check_anchor_iff :
    (r : Request) (env : Env) (l : OwnerLookup)
    → (check_anchor r env l ≡ allow) ↔ MayUse env l (anchor r.anchor)
unfolding check_anchor
check_anchor_iff r env l =
    let (sound, complete) = check_owned_name_iff (anchor_jail_name r.anchor) env l in
    (λ h. (λ e. ground (arith, e, h), sound (ground arith)), λ h. ground (arith, complete h.1))

check_dataset_iff :
    (r : Request) (env : Env) (l : OwnerLookup)
    → (check_dataset r env l ≡ allow) ↔ All (MayUse env l) (dataset r.dataset ∷ jid r.jid ∷ [])
unfolding check_dataset
check_dataset_iff r env l =
    let (sound, complete) = check_owned_jid_iff r.jid env l in
    let (own, is_own) = owned_under_iff r.dataset env.zfs_prefix in
    (
      λ h. (own (ground arith), (sound (ground arith), tt)),
      λ h. ground (arith, is_own h.0, complete h.1.0),
    )

single : {P : Type 0} (d : Decision) → ((d ≡ allow) ↔ P) → (d ≡ allow) ↔ (P × Unit {0})
single d f = (λ h. (f.0 h, tt), λ k. f.1 k.0)

both :
    {P Q : Type 0} (d e : Decision)
    → ((d ≡ allow) ↔ P)
    → ((e ≡ allow) ↔ Q)
    → (and_then d e ≡ allow) ↔ (P × (Q × Unit {0}))
both d e f g =
    (λ h. (f.0 (ground arith), (g.0 (ground arith), tt)), λ k. ground (arith, f.1 k.0, g.1 k.1.0))

never : (deny_devfs_shared_ruleset ≡ allow) ↔ ⊥
never = (λ h. cc, λ h. absurd h)

-- The policy, for every verb: the gate allows a request exactly if the caller may use each resource
-- that the request names.
pub authorize_iff :
    (v : Verb) (r : Request) (env : Env) (l : OwnerLookup)
    → (authorize v r env l ≡ allow) ↔ All (MayUse env l) (demands v r)
unfolding authorize
authorize_iff Verb.attach_zfs r env l = check_dataset_iff r env l
authorize_iff Verb.detach_zfs r env l = check_dataset_iff r env l
authorize_iff Verb.add_pf_rule r env l = single _ (check_anchor_iff r env l)
authorize_iff Verb.remove_pf_rule r env l = single _ (check_anchor_iff r env l)
authorize_iff Verb.flush_pf_anchor r env l = single _ (check_anchor_iff r env l)
authorize_iff Verb.set_loginclass_rctl r env l = single _ (check_loginclass_iff r env l)
authorize_iff Verb.clear_loginclass_rctl r env l = single _ (check_loginclass_iff r env l)
authorize_iff Verb.set_rctl r env l = single _ (check_owned_jid_iff r.jid env l)
authorize_iff Verb.clear_rctl r env l = single _ (check_owned_jid_iff r.jid env l)
authorize_iff Verb.set_jail_cpuset r env l = single _ (check_owned_jid_iff r.jid env l)
authorize_iff Verb.query_jail_rctl r env l = single _ (check_owned_jid_iff r.jid env l)
authorize_iff Verb.signal_jail r env l = single _ (check_owned_jid_iff r.jid env l)
authorize_iff Verb.acquire_fw_lease r env l = single _ (check_owned_jid_iff r.jid env l)
authorize_iff Verb.release_fw_lease r env l = single _ (check_owned_jid_iff r.jid env l)
authorize_iff Verb.configure_iface r env l =
    both _ _ (check_owned_jid_iff r.jid env l) (check_owned_iface_iff r.ifname env l)
authorize_iff Verb.teardown_iface r env l = single _ (check_owned_iface_iff r.ifname env l)
authorize_iff Verb.set_iface_up r env l = single _ (check_owned_iface_iff r.ifname env l)
authorize_iff Verb.disable_iface_offload r env l = single _ (check_owned_iface_iff r.ifname env l)
authorize_iff Verb.set_iface_inet_addr r env l = single _ (check_owned_iface_iff r.ifname env l)
authorize_iff Verb.set_iface_mac r env l = single _ (check_owned_iface_iff r.ifname env l)
authorize_iff Verb.bridge_add_member r env l = single _ (check_owned_iface_iff r.ifname env l)
authorize_iff Verb.bridge_del_member r env l = single _ (check_owned_iface_iff r.ifname env l)
authorize_iff Verb.exec_in_jail r env l = single _ (check_owned_jid_strict_iff r.jid env l)
authorize_iff Verb.destroy_jail r env l = single _ (check_owned_name_iff r.jail_name env l)
authorize_iff Verb.reclaim_iface_from_vnet r env l =
    both _ _ (check_owned_name_iff r.jail_name env l) (check_owned_iface_iff r.ifname env l)
authorize_iff Verb.create_jail r env l = single _ (check_owned_new_path_iff r.path env l)
authorize_iff Verb.unmount_nullfs r env l = single _ (check_owned_path_iff r.path env l)
authorize_iff Verb.apply_devfs_ruleset r env l = single _ (check_owned_path_iff r.path env l)
authorize_iff Verb.mount_tmpfs r env l = single _ (check_owned_path_iff r.path env l)
authorize_iff Verb.apply_devfs_rules r env l =
    both _ _ (check_owned_path_iff r.path env l)
      (check_owned_devfs_ruleset_iff r.devfs_ruleset env l)
authorize_iff Verb.add_devfs_unhide_rule r env l =
    both _ _ (check_owned_path_iff r.path env l) never
authorize_iff Verb.mount_nullfs r env l =
    both _ _ (check_owned_path_iff r.path env l) (check_source_iff r.source env l)
authorize_iff _ r env l = (λ _. tt, λ _. refl)
