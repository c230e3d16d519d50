-- ===== src/Privops/Authz/Tenants.antt =====
-- Two tenants under one master prefix: lib/privops_authz_pure.cpp with the environments that
-- lib/per_user_env_pure.cpp composes.
use crate.Base.{Text, arith, false, is_empty, true, ◌≡◌, ◌≢◌}
use crate.Privops.Verbs.{Verb}
use crate.Privops.UserEnv.{Env, path_slice}
use crate.Privops.Authz.{
  authorize, allow, deny_foreign_create_path, owned_under, OwnerLookup, Request,
}
use crate.Privops.Authz.Slices.{slices_disjoint}

-- If the gate allows a caller to create a jail at a path, it refuses the path to a caller of any
-- other uid under the same master, as a path of somebody else.
pub create_jail-one_tenant :
    (master : Text) (a b : Env) (r : Request) (l : OwnerLookup)
    → is_empty master ≡ false
    → a.path_prefix ≡ path_slice master a.uid
    → b.path_prefix ≡ path_slice master b.uid
    → a.uid ≢ b.uid
    → authorize Verb.create_jail r a l ≡ allow
    → authorize Verb.create_jail r b l ≡ deny_foreign_create_path
unfolding authorize
create_jail-one_tenant master a b r l set sa sb other h =
    let mine : owned_under r.path a.path_prefix ≡ true = ground arith in
    let inside : owned_under r.path (path_slice master a.uid) ≡ true = rw sa at mine in
    rw (sb, slices_disjoint master r.path a.uid b.uid set other inside)
