-- ===== src/Tests/Privops.antt =====
-- The theorems on the ownership gate at concrete requests.
use crate.Base.{
  All, [], arith, codes, decimal, false, if◌then◌else◌, none, refl, some, true, ℕ, ◌==◌, ◌↔◌, ◌≡◌,
}
use crate.Privops.Verbs.{Verb}
use crate.Privops.UserEnv.{Env, path_slice, compose_per_user_prefix, path_master, loginclass_name}
use crate.Privops.Authz.{
  Owner, OwnerLookup, Request, null_owner, authorize, allow, deny_foreign_create_path, owned_under,
}
use crate.Privops.Authz.Slices.{slices_disjoint}
use crate.Privops.Authz.Access.{authorize_iff, MayUse, demands}
use crate.Privops.Authz.Tenants.{create_jail-one_tenant}

abbrev pub tenant : ℕ → Env
tenant u = record {
  uid = u;
  runtime_root = [];
  leases_dir = [];
  exports_dir = [];
  imports_dir = [];
  audit_log = [];
  zfs_prefix = compose_per_user_prefix (codes "tank/jails") u;
  path_prefix = path_slice (codes "/jails") u;
  path_master_prefix = path_master (codes "/jails");
  ipv4_sub_cidr = [];
  ipv6_sub_cidr = [];
  loginclass = loginclass_name u;
  loginclass_subject = [];
}

abbrev jid_owner : ℕ → Owner
jid_owner j = if j == 7 then record { known = true; uid = 1001 } else null_owner

abbrev registry : OwnerLookup
registry = record {
  by_jid = some jid_owner;
  by_name = none;
  by_path = none;
  by_iface = none;
  by_devfs_ruleset = none;
}

abbrev pub web_request : Request
web_request = record {
  dataset = codes "tank/jails/1001/web";
  loginclass = codes "crate-1001";
  jail_name = codes "web";
  jid = 7;
  path = codes "/jails/1001/web";
  source = codes "/jails/1002/secret";
  anchor = codes "crate/web";
  ifname = codes "epair3a";
  devfs_ruleset = 12000;
}

authorize_iff_example :
    (authorize Verb.exec_in_jail web_request (tenant 1001) registry ≡ allow)
    ↔ All (MayUse (tenant 1001) registry) (demands Verb.exec_in_jail web_request)
authorize_iff_example = authorize_iff Verb.exec_in_jail web_request (tenant 1001) registry

slices_disjoint_inside :
    owned_under (codes "/jails/1001/web") (path_slice (codes "/jails/") 1001) ≡ true
unfolding owned_under path_slice decimal
slices_disjoint_inside = refl

slices_disjoint_example :
    owned_under (codes "/jails/1001/web") (path_slice (codes "/jails/") 10) ≡ false
slices_disjoint_example =
    slices_disjoint (codes "/jails/") (codes "/jails/1001/web") 1001 10 refl
      (λ e. absurd (omega (arith, e))) slices_disjoint_inside

create_jail_one_tenant_own : (tenant 1001).path_prefix ≡ path_slice (codes "/jails") 1001
create_jail_one_tenant_own = refl

create_jail_one_tenant_own2 : (tenant 1002).path_prefix ≡ path_slice (codes "/jails") 1002
create_jail_one_tenant_own2 = refl

create_jail_one_tenant_first : authorize Verb.create_jail web_request (tenant 1001) registry ≡ allow
unfolding authorize owned_under path_slice decimal
create_jail_one_tenant_first = refl

create_jail-one_tenant_example :
    authorize Verb.create_jail web_request (tenant 1002) registry ≡ deny_foreign_create_path
create_jail-one_tenant_example =
    create_jail-one_tenant (codes "/jails") (tenant 1001) (tenant 1002) web_request registry refl
      create_jail_one_tenant_own create_jail_one_tenant_own2 (λ e. absurd (omega (arith, e)))
      create_jail_one_tenant_first
