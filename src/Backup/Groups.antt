-- ===== src/Backup/Groups.antt =====
-- The prune of a whole directory: `decidePrune` of lib/backup_prune_pure.cpp, which applies the
-- policy to the streams of each jail on their own.
pub mod Grouping
pub mod Isolation
use crate.Base.{Bool, List, Text, [], if◌then◌else◌, sort_by, text_before, text_eq, ℕ, ◌++◌, ◌∷◌}
use crate.Backup.Prune.{
  StreamFile, RetentionPolicy, PruneDecision, filenames, decide_prune_one_jail,
}

-- `std::map` from jail names to streams, in the order of the names.
abbrev pub ByJail : Type 0
ByJail = List (Text × List StreamFile)

-- `byJail[f.jailName].push_back(f)`.
unfoldable pub push_stream : StreamFile → ByJail → ByJail
push_stream f [] = (f.jail_name, f ∷ []) ∷ []
push_stream f ((k, fs) ∷ m) =
    let rest = push_stream f m in
    if text_before f.jail_name k
    then (f.jail_name, f ∷ []) ∷ (k, fs) ∷ m
    else if text_eq k f.jail_name
    then (k, fs ++ f ∷ []) ∷ m
    else (k, fs) ∷ rest

unfoldable pub group_from : ByJail → List StreamFile → ByJail
unfolding push_stream
group_from m [] = m
group_from m (f ∷ fs) = group_from (push_stream f m) fs

abbrev pub append_decision :
    PruneDecision StreamFile → PruneDecision StreamFile → PruneDecision StreamFile
append_decision a b = record {
  keep = a.keep ++ b.keep;
  remove = a.remove ++ b.remove;
  orphans = a.orphans ++ b.orphans;
}

module _ (month_bucket : ℕ → ℕ) (policy : RetentionPolicy) (delete_orphans : Bool) where
  -- The loop over the jails; it appends to what the earlier ones gave.
  unfoldable pub prune_groups : ByJail → PruneDecision StreamFile
  unfolding decide_prune_one_jail
  prune_groups [] = record { keep = []; remove = []; orphans = [] }
  prune_groups ((k, fs) ∷ m) =
      append_decision (decide_prune_one_jail month_bucket fs policy delete_orphans) (prune_groups m)

  -- The three lists as streams, in the order before the sorts.
  unfoldable pub prune_streams : List StreamFile → PruneDecision StreamFile
  unfolding group_from prune_groups
  prune_streams files = prune_groups (group_from [] files)

  unfoldable pub decide_prune : List StreamFile → PruneDecision Text
  unfolding prune_streams sort_by
  decide_prune files =
      let d = filenames (prune_streams files) in
      record {
        keep = sort_by text_before d.keep;
        remove = sort_by text_before d.remove;
        orphans = sort_by text_before d.orphans;
      }
