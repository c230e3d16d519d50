-- ===== src/Tests/Registry.antt =====
-- The theorems on the registries at concrete states.
use crate.Base.{
  Bool, List, Map, Text, [], arith, codes, decimal, err, false, find, if◌then◌else◌, length, negsuc,
  none, ok, pos, refl, some, text_eq, true, ℕ, ◌+◌, ◌==◌, ◌↔◌, ◌∷◌, ◌≡◌,
}
use crate.Privops.Authz.{is_epair_iface_name}
use crate.Registry.IfaceOwners
use crate.Registry.IfaceOwners.{EntryMap, peer_half, find_iface, is_kept}
use crate.Registry.IfaceOwners.Halves.{IsPeerOf, peer_half-IsPeerOf, reconcile_halves}
use crate.Registry.JidOwners
use crate.Registry.JidOwners.{find_owner_by_path, parse_decimal, decimal_loop}
use crate.Registry.JidOwners.Lookup.{
  IsInnermost, find_owner_by_path-IsInnermost, if_live, reconcile_lem,
}
use crate.Registry.JidOwners.{bad_columns}
use crate.Registry.JidOwners.File.{IsFrom}
use crate.Registry.JidOwners.Parsed.{parse-serialize_iff}
use crate.Privops.Fields.{validate_absolute_path}
use crate.Registry.FwLease.{State, lowest_free_slot, slot_used}
use crate.Registry.FwLease.Slots.{LowestFree, lowest_free_slot_lem, IsValid}
use crate.Registry.FwLease.Host.{Call, acquires, releases, reconciles, run, fresh}
use crate.Registry.FwLease.Keeps.{run-fresh-IsValid}
use crate.Registry.FwLease.Forwarding.{Follows, run-fresh-Follows}
use crate.Registry.FwLease.File.{parse, serialize}
use crate.Registry.FwLease.File.RoundTrip.{parse-serialize}

abbrev two_leases : State
two_leases = record {
  leases =
      (3, record { slot = pos 0; fwd4 = true; fwd6 = false })
      ∷ (9, record { slot = pos 2; fwd4 = false; fwd6 = false })
      ∷ [];
  orig4 = pos 0;
  orig6 = negsuc 0;
}

abbrev history : List Call
history =
    acquires 3 true true false
    ∷ acquires 9 true false false
    ∷ releases 3
    ∷ reconciles (some (λ j. j == 3))
    ∷ []

lowest_free_slot_example : LowestFree two_leases.leases 0 1500 (lowest_free_slot two_leases 1500)
lowest_free_slot_example = lowest_free_slot_lem two_leases 1500

run-fresh-IsValid_example : IsValid (run (fresh 0 1) history).state
run-fresh-IsValid_example =
    run-fresh-IsValid 0 1 history (omega arith, (omega arith, (tt, (tt, tt))))

run-fresh-Follows_example : Follows 0 1 (run (fresh 0 1) history)
run-fresh-Follows_example = run-fresh-Follows 0 1 history

two_leases-IsValid : IsValid two_leases
unfolding slot_used
two_leases-IsValid = record {
  sorted = (omega arith, (omega arith, tt));
  distinct = ((omega arith, refl), ((omega arith, refl), tt));
}

parse-serialize_example : parse (serialize two_leases) ≡ ok two_leases
parse-serialize_example = parse-serialize two_leases (record {
  valid = two_leases-IsValid;
  jids = (omega arith, (omega arith, tt));
  saved4 = omega arith;
  saved6 = refl;
})

abbrev owners : Map JidOwners.Entry
owners =
    (3, record { uid = 1001; name = codes "web"; path = codes "/jails/1001/web" })
    ∷ (9, record { uid = 1002; name = codes "db"; path = codes "/jails/1001/web/inner" })
    ∷ []

find_owner_by_path-IsInnermost_example :
    IsInnermost
      (codes "/jails/1001/web/inner/etc")
      owners
      (find_owner_by_path owners (codes "/jails/1001/web/inner/etc"))
find_owner_by_path-IsInnermost_example =
    find_owner_by_path-IsInnermost owners (codes "/jails/1001/web/inner/etc")

abbrev is_web : ℕ → JidOwners.Entry → Bool
is_web j e = text_eq e.name (codes "web")

reconcile_lem_example :
    let r = JidOwners.reconcile owners (some is_web) in
    ((j : ℕ) → find j r.0 ≡ if_live is_web j (find j owners)) × (length r.0 + r.1 ≡ length owners)
reconcile_lem_example = reconcile_lem is_web owners (omega arith, (omega arith, tt))

parse-serialize_iff_example :
    (JidOwners.parse (JidOwners.serialize owners) ≡ ok owners) ↔ IsFrom 1 owners
parse-serialize_iff_example = parse-serialize_iff owners

-- A path that a jail may be created at, and whose line has a column too many.
abbrev tab_path : Text
tab_path = codes "/jails/a\tb"

tab_path-accepted : validate_absolute_path tab_path ≡ ok tt
unfolding validate_absolute_path
tab_path-accepted = refl

tab_path-unreadable :
    JidOwners.parse
      (JidOwners.serialize ((3, record { uid = 1; name = codes "a"; path = tab_path }) ∷ []))
    ≡ err (bad_columns 1)
unfolding JidOwners.parse JidOwners.serialize JidOwners.parse_lines JidOwners.entry_line decimal
    JidOwners.parse_line JidOwners.add_columns
tab_path-unreadable = refl

parse_decimal_read : parse_decimal (codes "01001") ≡ some 1001
unfolding parse_decimal decimal_loop
parse_decimal_read = refl

is_epair_name_read : IfaceOwners.is_epair_name (codes "epair3a") ≡ true
unfolding is_epair_iface_name
is_epair_name_read = refl

peer_half-IsPeerOf_example : IsPeerOf (codes "epair3a") (peer_half (codes "epair3a"))
peer_half-IsPeerOf_example = peer_half-IsPeerOf (codes "epair3a") is_epair_name_read

abbrev pairs : EntryMap
pairs = (codes "epair3a", 1001) ∷ (codes "epair3b", 1001) ∷ []

abbrev no_epair : Text → Bool
no_epair name = false

reconcile_halves_example :
    let r = (IfaceOwners.reconcile pairs (some no_epair)).0 in
    let kept = is_kept no_epair (codes "epair3a") in
    (find_iface (codes "epair3a") r ≡ (if kept then find_iface (codes "epair3a") pairs else none))
    × (find_iface (peer_half (codes "epair3a")) r
        ≡ (if kept then find_iface (peer_half (codes "epair3a")) pairs else none))
reconcile_halves_example = reconcile_halves pairs no_epair (codes "epair3a") is_epair_name_read
