-- ===== src/Privops/Verbs.antt =====
-- `enum class Verb` of lib/privops_pure.h.
pub data Verb : Type 0 where
  unknown create_jail destroy_jail mount_nullfs unmount_nullfs set_rctl clear_rctl : Verb
  attach_zfs detach_zfs configure_iface teardown_iface add_pf_rule remove_pf_rule : Verb
  add_ipfw_rule remove_ipfw_rule set_iface_up disable_iface_offload bridge_add_member : Verb
  bridge_del_member set_iface_inet_addr create_epair ensure_user_root set_loginclass_rctl : Verb
  clear_loginclass_rctl reclaim_iface_from_vnet flush_pf_anchor query_jail_rctl : Verb
  configure_ipfw_nat set_jail_cpuset apply_devfs_ruleset add_devfs_unhide_rule signal_jail : Verb
  exec_in_jail set_iface_mac delete_ipfw_nat create_bridge acquire_fw_lease : Verb
  release_fw_lease apply_devfs_rules mount_tmpfs : Verb
