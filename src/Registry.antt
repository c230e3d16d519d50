-- ===== src/Registry.antt =====
-- The daemon's registries: firewall leases, jail owners and interface owners.
pub mod FwLease
pub mod JidOwners
pub mod IfaceOwners
