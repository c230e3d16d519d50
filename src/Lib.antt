-- ===== src/Lib.antt =====
-- Verification of crate, the FreeBSD container tool: its command, the daemon `crated` and the hub. The
-- library models the pure decisions that the privileged daemon rests on, in the terms of the code: a
-- function by clauses per C++ function, a record per struct, a data type per enum or per set of error
-- texts. Paths are those of the repository.
--
-- The parts and how they meet:
--   * Privops: a caller's request for a privileged verb passes the ownership gate `authorize`
--     (Privops.Authz, lib/privops_authz_pure.cpp). The caller's slices of paths and datasets are in
--     Privops.UserEnv (lib/per_user_env_pure.cpp, lib/zfs_dataset_pure.cpp), the verbs in
--     Privops.Verbs (lib/privops_pure.h). The names of the verbs (Privops.Names), the checks of the
--     fields of a request (Privops.Fields) and the request create_jail with its whitelist of jail(8)
--     parameters (Privops.CreateJail, against the lists described in CreateJail.Language and the
--     fields described in Fields.Shapes), and numbers, networks and MAC addresses (Privops.Numbers)
--     are of lib/privops_pure.cpp.
--   * Registry: the state that the gate's probes read and that the daemon keeps in files. FwLease is
--     lib/fw_lease_pure.cpp, with the object over the host's two forwarding sysctls in FwLease.Host
--     (lib/fw_lease_registry.cpp) and its file in FwLease.File; JidOwners is
--     lib/jid_owner_registry_pure.cpp, with the object that answers the gate's probes in
--     JidOwners.Host (lib/jid_owner_registry.cpp); IfaceOwners is lib/iface_owner_registry_pure.cpp.
--   * Net: IPv4 addresses, pools and lease lines (lib/ip_alloc_pure.cpp); the syntax of addresses and
--     host names in Net.Syntax (lib/netaddr_pure.cpp).
--   * Daemon: the rate limiter (daemon/rate_limit_pure.cpp), bearer tokens (lib/auth_pure.cpp), pool
--     access lists (lib/pool_pure.cpp) and WebSocket frames (daemon/ws_pure.cpp) of the HTTP plane.
--   * Hub: failover orders (hub/ha_pure.cpp) and the least loaded node (hub/scheduling_pure.cpp).
--   * Stack: the start order of a stack (`topoSort` of lib/stack_pure.h) in Topo, what a stack injects
--     into its members in Inject, the rule numbers of its network policies in Policy
--     (lib/stack_pure.cpp).
--   * Backup: the retention of one jail's stream files in Prune, of a directory in Groups, and the file
--     names in Names (lib/backup_prune_pure.cpp).
--   * Base: tests, lists, texts, decimals, results, maps and sorting that these share.
--
-- Conventions. A text is a list of bytes. An operation on a shared object takes the state and returns
-- the new one; the callers hold a lock, so operations do not interleave. A function that returns an
-- error text or fills `err` returns a Result whose error names the case and carries the values that
-- the text prints. `std::map` is an association list in the order of its keys. Fixed-width integers
-- have their wrap-around written out where a value can reach it (the allocator's 32-bit addresses,
-- the 64-bit parser of JidOwners); elsewhere the model's numbers are those of the code because the
-- code bounds them first. Fuel: `uid_loop` has as many rounds as the uid, which each round
-- divides by ten; `scan` and FwLease's `slot_loop` have exactly the rounds of their `for` loop, and
-- Policy's as many as the range has numbers; `queue_loop` has one round per entry, since each enters
-- the queue once.
--
-- Parameters: SHA-256, `gmtime_r`, `inet_pton` and the probes of live jails and interfaces are
-- arguments of the definitions that use them.
--
-- Not modelled: system calls, threads, files on disk and sockets; the JSON, libnv and HTTP layers;
-- the parsers of requests, specifications and the control socket, and the validators of most
-- requests; the WebSocket handshake; SNMP. Sysctl calls are taken not to fail.
pub mod Base
pub mod Hub
pub mod Net
pub mod Backup
pub mod Daemon
pub mod Privops
pub mod Registry
pub mod Stack
mod Tests
