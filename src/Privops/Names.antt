-- ===== src/Privops/Names.antt =====
-- The names of the verbs on the wire: `verbName` and `parseVerb` of lib/privops_pure.cpp.
use mathlib.Core.Logic.{inl, inr}
use crate.Base.{
  &&_elim, Bool-cases, List, Text, [], all, ap, codes, if◌then◌else◌, refl, subst, sym, text_eq,
  text_eq→eq, true, ◌↔◌, ◌∙◌, ◌∷◌, ◌≡◌, ◌≢◌, ◌⊎◌,
}
use crate.Privops.Verbs.{Verb}

unfoldable pub verb_name : Verb → Text
verb_name Verb.create_jail = codes "create_jail"
verb_name Verb.destroy_jail = codes "destroy_jail"
verb_name Verb.mount_nullfs = codes "mount_nullfs"
verb_name Verb.unmount_nullfs = codes "unmount_nullfs"
verb_name Verb.set_rctl = codes "set_rctl"
verb_name Verb.clear_rctl = codes "clear_rctl"
verb_name Verb.attach_zfs = codes "attach_zfs"
verb_name Verb.detach_zfs = codes "detach_zfs"
verb_name Verb.configure_iface = codes "configure_iface"
verb_name Verb.teardown_iface = codes "teardown_iface"
verb_name Verb.add_pf_rule = codes "add_pf_rule"
verb_name Verb.remove_pf_rule = codes "remove_pf_rule"
verb_name Verb.add_ipfw_rule = codes "add_ipfw_rule"
verb_name Verb.remove_ipfw_rule = codes "remove_ipfw_rule"
verb_name Verb.set_iface_up = codes "set_iface_up"
verb_name Verb.disable_iface_offload = codes "disable_iface_offload"
verb_name Verb.bridge_add_member = codes "bridge_add_member"
verb_name Verb.bridge_del_member = codes "bridge_del_member"
verb_name Verb.set_iface_inet_addr = codes "set_iface_inet_addr"
verb_name Verb.create_epair = codes "create_epair"
verb_name Verb.ensure_user_root = codes "ensure_user_root"
verb_name Verb.set_loginclass_rctl = codes "set_loginclass_rctl"
verb_name Verb.clear_loginclass_rctl = codes "clear_loginclass_rctl"
verb_name Verb.reclaim_iface_from_vnet = codes "reclaim_iface_from_vnet"
verb_name Verb.flush_pf_anchor = codes "flush_pf_anchor"
verb_name Verb.query_jail_rctl = codes "query_jail_rctl"
verb_name Verb.configure_ipfw_nat = codes "configure_ipfw_nat"
verb_name Verb.set_jail_cpuset = codes "set_jail_cpuset"
verb_name Verb.apply_devfs_ruleset = codes "apply_devfs_ruleset"
verb_name Verb.add_devfs_unhide_rule = codes "add_devfs_unhide_rule"
verb_name Verb.signal_jail = codes "signal_jail"
verb_name Verb.exec_in_jail = codes "exec_in_jail"
verb_name Verb.set_iface_mac = codes "set_iface_mac"
verb_name Verb.delete_ipfw_nat = codes "delete_ipfw_nat"
verb_name Verb.create_bridge = codes "create_bridge"
verb_name Verb.acquire_fw_lease = codes "acquire_fw_lease"
verb_name Verb.release_fw_lease = codes "release_fw_lease"
verb_name Verb.apply_devfs_rules = codes "apply_devfs_rules"
verb_name Verb.mount_tmpfs = codes "mount_tmpfs"
verb_name Verb.unknown = codes "unknown"

-- The chain of tests, in its order.
abbrev pub name_tests : List (Text × Verb)
name_tests =
    (codes "create_jail", Verb.create_jail)
    ∷ (codes "destroy_jail", Verb.destroy_jail)
    ∷ (codes "mount_nullfs", Verb.mount_nullfs)
    ∷ (codes "unmount_nullfs", Verb.unmount_nullfs)
    ∷ (codes "set_rctl", Verb.set_rctl)
    ∷ (codes "clear_rctl", Verb.clear_rctl)
    ∷ (codes "attach_zfs", Verb.attach_zfs)
    ∷ (codes "detach_zfs", Verb.detach_zfs)
    ∷ (codes "configure_iface", Verb.configure_iface)
    ∷ (codes "teardown_iface", Verb.teardown_iface)
    ∷ (codes "add_pf_rule", Verb.add_pf_rule)
    ∷ (codes "remove_pf_rule", Verb.remove_pf_rule)
    ∷ (codes "add_ipfw_rule", Verb.add_ipfw_rule)
    ∷ (codes "remove_ipfw_rule", Verb.remove_ipfw_rule)
    ∷ (codes "set_iface_up", Verb.set_iface_up)
    ∷ (codes "disable_iface_offload", Verb.disable_iface_offload)
    ∷ (codes "bridge_add_member", Verb.bridge_add_member)
    ∷ (codes "bridge_del_member", Verb.bridge_del_member)
    ∷ (codes "set_iface_inet_addr", Verb.set_iface_inet_addr)
    ∷ (codes "create_epair", Verb.create_epair)
    ∷ (codes "ensure_user_root", Verb.ensure_user_root)
    ∷ (codes "set_loginclass_rctl", Verb.set_loginclass_rctl)
    ∷ (codes "clear_loginclass_rctl", Verb.clear_loginclass_rctl)
    ∷ (codes "reclaim_iface_from_vnet", Verb.reclaim_iface_from_vnet)
    ∷ (codes "flush_pf_anchor", Verb.flush_pf_anchor)
    ∷ (codes "query_jail_rctl", Verb.query_jail_rctl)
    ∷ (codes "configure_ipfw_nat", Verb.configure_ipfw_nat)
    ∷ (codes "set_jail_cpuset", Verb.set_jail_cpuset)
    ∷ (codes "apply_devfs_ruleset", Verb.apply_devfs_ruleset)
    ∷ (codes "add_devfs_unhide_rule", Verb.add_devfs_unhide_rule)
    ∷ (codes "signal_jail", Verb.signal_jail)
    ∷ (codes "exec_in_jail", Verb.exec_in_jail)
    ∷ (codes "set_iface_mac", Verb.set_iface_mac)
    ∷ (codes "delete_ipfw_nat", Verb.delete_ipfw_nat)
    ∷ (codes "create_bridge", Verb.create_bridge)
    ∷ (codes "acquire_fw_lease", Verb.acquire_fw_lease)
    ∷ (codes "release_fw_lease", Verb.release_fw_lease)
    ∷ (codes "apply_devfs_rules", Verb.apply_devfs_rules)
    ∷ (codes "mount_tmpfs", Verb.mount_tmpfs)
    ∷ []

unfoldable pub find_verb : Text → List (Text × Verb) → Verb
find_verb name [] = Verb.unknown
find_verb name ((n, v) ∷ tests) = if text_eq name n then v else find_verb name tests

unfoldable pub parse_verb : Text → Verb
unfolding find_verb
parse_verb name = find_verb name name_tests

find_verb_sound :
    (name : Text) (tests : List (Text × Verb))
    → all (λ t. text_eq (verb_name (t.1)) (t.0)) tests ≡ true
    → (find_verb name tests ≡ Verb.unknown) ⊎ (verb_name (find_verb name tests) ≡ name)
unfolding find_verb
find_verb_sound name [] h = inl refl
find_verb_sound name ((n, v) ∷ tests) h =
    let (named, rest) =
      &&_elim (text_eq (verb_name v) n) (all (λ t. text_eq (verb_name (t.1)) (t.0)) tests) h in
    elim (Bool-cases (text_eq name n)) [
      | inl e ↦ inr (
          ap (λ b. verb_name (if b then v else find_verb name tests)) e
          ∙ text_eq→eq (verb_name v) n named
          ∙ sym (text_eq→eq name n e))
      | inr e ↦
          subst
            (λ b.
              ((if b then v else find_verb name tests) ≡ Verb.unknown)
              ⊎ (verb_name (if b then v else find_verb name tests) ≡ name))
            (sym e) (find_verb_sound name tests rest)
    ]

name_tests-named : all (λ t. text_eq (verb_name (t.1)) (t.0)) name_tests ≡ true
unfolding verb_name
name_tests-named = refl

parse_verb-verb_name : (v : Verb) → parse_verb (verb_name v) ≡ v
unfolding parse_verb verb_name find_verb
parse_verb-verb_name Verb.create_jail = refl
parse_verb-verb_name Verb.destroy_jail = refl
parse_verb-verb_name Verb.mount_nullfs = refl
parse_verb-verb_name Verb.unmount_nullfs = refl
parse_verb-verb_name Verb.set_rctl = refl
parse_verb-verb_name Verb.clear_rctl = refl
parse_verb-verb_name Verb.attach_zfs = refl
parse_verb-verb_name Verb.detach_zfs = refl
parse_verb-verb_name Verb.configure_iface = refl
parse_verb-verb_name Verb.teardown_iface = refl
parse_verb-verb_name Verb.add_pf_rule = refl
parse_verb-verb_name Verb.remove_pf_rule = refl
parse_verb-verb_name Verb.add_ipfw_rule = refl
parse_verb-verb_name Verb.remove_ipfw_rule = refl
parse_verb-verb_name Verb.set_iface_up = refl
parse_verb-verb_name Verb.disable_iface_offload = refl
parse_verb-verb_name Verb.bridge_add_member = refl
parse_verb-verb_name Verb.bridge_del_member = refl
parse_verb-verb_name Verb.set_iface_inet_addr = refl
parse_verb-verb_name Verb.create_epair = refl
parse_verb-verb_name Verb.ensure_user_root = refl
parse_verb-verb_name Verb.set_loginclass_rctl = refl
parse_verb-verb_name Verb.clear_loginclass_rctl = refl
parse_verb-verb_name Verb.reclaim_iface_from_vnet = refl
parse_verb-verb_name Verb.flush_pf_anchor = refl
parse_verb-verb_name Verb.query_jail_rctl = refl
parse_verb-verb_name Verb.configure_ipfw_nat = refl
parse_verb-verb_name Verb.set_jail_cpuset = refl
parse_verb-verb_name Verb.apply_devfs_ruleset = refl
parse_verb-verb_name Verb.add_devfs_unhide_rule = refl
parse_verb-verb_name Verb.signal_jail = refl
parse_verb-verb_name Verb.exec_in_jail = refl
parse_verb-verb_name Verb.set_iface_mac = refl
parse_verb-verb_name Verb.delete_ipfw_nat = refl
parse_verb-verb_name Verb.create_bridge = refl
parse_verb-verb_name Verb.acquire_fw_lease = refl
parse_verb-verb_name Verb.release_fw_lease = refl
parse_verb-verb_name Verb.apply_devfs_rules = refl
parse_verb-verb_name Verb.mount_tmpfs = refl
parse_verb-verb_name Verb.unknown = refl

-- For a verb other than `unknown`, the parser returns the verb exactly for the verb's name.
pub parse_verb_iff :
    (name : Text) (v : Verb) → v ≢ Verb.unknown → (parse_verb name ≡ v) ↔ (name ≡ verb_name v)
unfolding parse_verb
parse_verb_iff name v known = (
  (λ e. elim (find_verb_sound name name_tests name_tests-named) [
    | inl u ↦ absurd (known (sym e ∙ u))
    | inr h ↦ sym h ∙ ap verb_name e
  ]),
  (λ e. ap parse_verb e ∙ parse_verb-verb_name v),
)
