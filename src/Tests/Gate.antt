-- ===== src/Tests/Gate.antt =====
-- The theorems on the gate over the registry at two tenants, and those on address syntax.
use mathlib.Core.List.{Memᴰ}
use crate.Base.{List, Map, [], codes, false, none, refl, some, true, ℕ, ◌↔◌, ◌∷◌, ◌≡◌, ◌⊎◌}
use crate.Net.Syntax.{is_v6}
use crate.Net.Syntax.V6.{IsV6Text, is_v6_iff}
use crate.Privops.Authz.{
  authorize, allow, deny_foreign_jid, check_owned_jid_strict, check_owned_path,
}
use crate.Privops.Authz.Slices.{Under}
use crate.Privops.Verbs.{Verb}
use crate.Registry.JidOwners.{Entry, owner_loop, covers}
use crate.Registry.JidOwners.Lookup.{IsInnermost}
use crate.Registry.JidOwners.Host.{
  Op, create, forget_name, look_jid, record_create, make_lookup, run,
}
use crate.Registry.JidOwners.Host.Gate.{exec_after_create, path_in_own_jail}
use crate.Tests.Privops.{tenant, web_request}

abbrev before : List Op
before = create 3 1002 (codes "db") (codes "/jails/1002/db") ∷ []

abbrev happened : List Op
happened =
    create 9 1002 (codes "cache") (codes "/jails/1002/cache")
    ∷ forget_name (codes "db")
    ∷ look_jid none 7
    ∷ []

abbrev after : Map Entry
after = run happened (record_create 7 1001 (codes "web") (codes "/jails/1001/web") (run before []))

creator_enters :
    authorize Verb.exec_in_jail web_request (tenant 1001) (make_lookup none after) ≡ allow
unfolding authorize make_lookup run check_owned_jid_strict record_create
creator_enters = refl

neighbour_is_refused :
    authorize Verb.exec_in_jail web_request (tenant 1002) (make_lookup none after)
    ≡ deny_foreign_jid
unfolding authorize make_lookup run check_owned_jid_strict record_create
neighbour_is_refused = refl

exec_after_create_example : 1001 ≡ (tenant 1001).uid
exec_after_create_example =
    exec_after_create before 7 1001 (codes "web") (codes "/jails/1001/web") happened none
      (tenant 1001) web_request refl refl creator_enters

creator_mounts :
    authorize Verb.mount_tmpfs web_request (tenant 1001) (make_lookup none after) ≡ allow
unfolding authorize make_lookup run check_owned_path owner_loop covers record_create
creator_mounts = refl

path_in_own_jail_example :
    ((r : ℕ × Entry) × IsInnermost (codes "/jails/1001/web") after (some r)
      × (r.1.uid ≡ (tenant 1001).uid))
    ⊎ (IsInnermost (codes "/jails/1001/web") after none
        × (((tenant 1001).path_master_prefix ≡ [])
            ⊎ Under (codes "/jails/1001/web") (tenant 1001).path_prefix))
path_in_own_jail_example =
    path_in_own_jail Verb.mount_tmpfs web_request (codes "/jails/1001/web") none after (tenant 1001)
      (Memᴰ.head refl) creator_mounts

is_v6_iff_example : (is_v6 (codes "fd00:1::2") ≡ true) ↔ IsV6Text (codes "fd00:1::2")
is_v6_iff_example = is_v6_iff (codes "fd00:1::2")

no_second_gap : is_v6 (codes "1::2::3") ≡ false
unfolding is_v6
no_second_gap = refl
