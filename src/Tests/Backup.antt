-- ===== src/Tests/Backup.antt =====
-- The theorems on the retention of backups at a concrete directory.
use Prim.Native.String.{String}
use crate.Base.{
  List, [], all, arith, codes, err, false, keep_if, length, ok, refl, true, ℕ, ◌+◌, ◌/◌, ◌∷◌, ◌≡◌,
}
use crate.Backup.Prune.{StreamFile, RetentionPolicy, decide_prune_one_jail}
use crate.Backup.Groups.{prune_streams}
use crate.Backup.Groups.Grouping.{is_of}
use crate.Backup.Groups.Isolation.{kept, pick, prune_streams-of_jail}
use crate.Backup.Names.{parse_suffix_epoch, parse_stream_filename, no_backup_tag}
use crate.Backup.Prune.Chains.{kept_chains, has_base}
use crate.Backup.Prune.Removal.{removal_lem, may_remove}
use crate.Backup.Prune.Newest.{newest_survives, covered_by}

abbrev month_number : ℕ → ℕ
month_number epoch = epoch / 2629746

abbrev stream : String → String → ℕ → StreamFile
stream suffix base epoch = record {
  filename = codes suffix;
  jail_name = codes "web";
  suffix = codes suffix;
  inc_from_suffix = codes base;
  unix_epoch = epoch;
}

abbrev streams : List StreamFile
streams =
    stream "full1" "" 100000
    ∷ stream "inc1" "full1" 110000
    ∷ stream "full2" "" 900000
    ∷ stream "inc2" "full2" 910000
    ∷ stream "inc3" "inc2" 920000
    ∷ stream "odd" "" 0
    ∷ []

abbrev one_a_day : RetentionPolicy
one_a_day = record { hourly = 0; daily = 1; weekly = 0; monthly = 0 }

kept_chains_example :
    all
      (has_base (decide_prune_one_jail month_number streams one_a_day true).keep)
      (decide_prune_one_jail month_number streams one_a_day true).keep
    ≡ true
kept_chains_example = kept_chains month_number streams one_a_day true

removal_lem_example :
    let d = decide_prune_one_jail month_number streams one_a_day false in
    (all (may_remove false) d.remove ≡ true)
    × (length d.keep + length d.remove + length d.orphans ≡ length streams)
removal_lem_example = removal_lem month_number streams one_a_day false

newest_survives_example :
    all (covered_by (decide_prune_one_jail month_number streams one_a_day true).keep) streams ≡ true
newest_survives_example = newest_survives month_number streams one_a_day true (omega arith)

-- 2026-01-01T00:00:00Z and a leap day.
new_year : parse_suffix_epoch (codes "backup-2026-01-01T00:00:00Z") ≡ 1767225600
unfolding parse_suffix_epoch
new_year = refl

leap_day : parse_suffix_epoch (codes "backup-2024-02-29T12:30:15Z") ≡ 1709209815
unfolding parse_suffix_epoch
leap_day = refl

-- A jail's name may hold `-backup-`, since the last one counts, but not `.inc-from-`.
nested_tag :
    parse_stream_filename (codes "a-backup-b-backup-2026-01-01T00:00:00Z.zstream")
    ≡ ok (record {
      filename = codes "a-backup-b-backup-2026-01-01T00:00:00Z.zstream";
      jail_name = codes "a-backup-b";
      suffix = codes "backup-2026-01-01T00:00:00Z";
      inc_from_suffix = [];
      unix_epoch = 1767225600;
    })
unfolding parse_stream_filename
nested_tag = refl

hidden_jail :
    parse_stream_filename (codes "a.inc-from-b-backup-2026-01-01T00:00:00Z.zstream")
    ≡ err no_backup_tag
unfolding parse_stream_filename
hidden_jail = refl

-- A name whose base is empty is taken for a full stream.
empty_base :
    parse_stream_filename (codes "a-backup-2026-01-01T00:00:00Z.inc-from-.zstream")
    ≡ ok (record {
      filename = codes "a-backup-2026-01-01T00:00:00Z.inc-from-.zstream";
      jail_name = codes "a";
      suffix = codes "backup-2026-01-01T00:00:00Z";
      inc_from_suffix = [];
      unix_epoch = 1767225600;
    })
unfolding parse_stream_filename
empty_base = refl

abbrev two_jails : List StreamFile
two_jails = record (stream "full1" "" 950000) { jail_name = codes "db" } ∷ streams

prune_streams-of_jail_example :
    keep_if (is_of (codes "web")) (pick kept (prune_streams month_number one_a_day true two_jails))
    ≡ pick kept (
        decide_prune_one_jail month_number (keep_if (is_of (codes "web")) two_jails) one_a_day true)
prune_streams-of_jail_example =
    prune_streams-of_jail month_number one_a_day true (codes "web") kept two_jails
