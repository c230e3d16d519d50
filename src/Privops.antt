-- ===== src/Privops.antt =====
-- The privileged-operations layer of crated: the verbs, the per-user environment of a caller and
-- the ownership gate, the names and the field checks of requests (lib/privops_pure,
-- lib/per_user_env_pure, lib/privops_authz_pure).
pub mod Verbs
pub mod UserEnv
pub mod Authz
pub mod Names
pub mod Fields
pub mod CreateJail
pub mod Numbers
