-- ===== src/Backup/Prune.antt =====
-- Which stream files of one jail are kept: lib/backup_prune_pure.{h,cpp}. Times are seconds since
-- 1970; `gmtime_r` is a parameter, the number of a month from a time. `std::sort` may order streams of
-- the same second in any way; here they stay in the order of the input.
pub mod Chains
pub mod Removal
pub mod Newest
use crate.Base.{
  Bool, List, Text, [], any, has, if◌then◌else◌, is_empty, keep_if, leb, length, ltb, map, not,
  sort_by, text_before, text_eq, ℕ, ◌&&◌, ◌*◌, ◌++◌, ◌+◌, ◌/◌, ◌==◌, ◌∷◌,
}

pub record StreamFile : Type 0 where
  pub filename : Text
  pub jail_name : Text
  pub suffix : Text
  pub inc_from_suffix : Text
  pub unix_epoch : ℕ

pub record RetentionPolicy : Type 0 where
  pub hourly : ℕ
  pub daily : ℕ
  pub weekly : ℕ
  pub monthly : ℕ

-- The three lists, of streams; `filenames` gives the lists of the source.
pub record PruneDecision (A : Type 0) : Type 0 where
  pub keep : List A
  pub remove : List A
  pub orphans : List A

abbrev pub filenames : PruneDecision StreamFile → PruneDecision Text
filenames d = record {
  keep = map (λ f. f.filename) d.keep;
  remove = map (λ f. f.filename) d.remove;
  orphans = map (λ f. f.filename) d.orphans;
}

abbrev pub hour_bucket : ℕ → ℕ
hour_bucket epoch = epoch / 3600

abbrev pub day_bucket : ℕ → ℕ
day_bucket epoch = epoch / 86400

abbrev pub week_bucket : ℕ → ℕ
week_bucket epoch = epoch / (86400 * 7)

-- A stream with its index in `files`.
abbrev pub Indexed : Type 0
Indexed = ℕ × StreamFile

unfoldable pub with_index : ℕ → List StreamFile → List Indexed
with_index i [] = []
with_index i (f ∷ fs) = (i, f) ∷ with_index (i + 1) fs

-- The loop of `bucketKeep` with the keys seen.
unfoldable pub bucket_loop : ℕ → (ℕ → ℕ) → List ℕ → List Indexed → List ℕ
bucket_loop n bucket_fn seen [] = []
bucket_loop n bucket_fn seen ((i, f) ∷ fs) =
    let key = bucket_fn f.unix_epoch in
    let skipped = bucket_loop n bucket_fn seen fs in
    let rest = bucket_loop n bucket_fn (key ∷ seen) fs in
    if has key seen then skipped else i ∷ (if leb n (length seen + 1) then [] else rest)

unfoldable pub bucket_keep : List Indexed → ℕ → (ℕ → ℕ) → List ℕ
bucket_keep fulls n bucket_fn = if n == 0 then [] else bucket_loop n bucket_fn [] fulls

abbrev pub is_full : StreamFile → Bool
is_full f = is_empty f.inc_from_suffix

abbrev pub is_dated : StreamFile → Bool
is_dated f = not (f.unix_epoch == 0)

abbrev pub newer_first : Indexed → Indexed → Bool
newer_first a b = ltb b.1.unix_epoch a.1.unix_epoch

abbrev pub older_first : StreamFile → StreamFile → Bool
older_first a b =
    if not (a.unix_epoch == b.unix_epoch)
    then ltb a.unix_epoch b.unix_epoch
    else text_before a.filename b.filename

unfoldable pub fulls_by_epoch_desc : List StreamFile → List Indexed
fulls_by_epoch_desc files =
    sort_by newer_first
      (keep_if (λ (r : Indexed). is_dated r.1 && is_full r.1) (with_index 0 files))

unfoldable pub incrementals_by_epoch : List StreamFile → List StreamFile
incrementals_by_epoch files =
    sort_by older_first (keep_if (λ f. is_dated f && not (is_full f)) files)

-- The indices that some bucket keeps.
unfoldable pub kept_indices : (ℕ → ℕ) → RetentionPolicy → List Indexed → List ℕ
kept_indices month_bucket policy fulls =
    bucket_keep fulls policy.hourly hour_bucket
    ++ (bucket_keep fulls policy.daily day_bucket
        ++ (bucket_keep fulls policy.weekly week_bucket
            ++ bucket_keep fulls policy.monthly month_bucket))

abbrev pub has_suffix : Text → List Text → Bool
has_suffix s = any (λ t. text_eq t s)

-- The walk over the incrementals with the suffixes that are kept.
unfoldable pub inc_walk : Bool → List Text → List StreamFile → PruneDecision StreamFile
inc_walk delete_orphans kept_suffixes [] = record { keep = []; remove = []; orphans = [] }
inc_walk delete_orphans kept_suffixes (f ∷ fs) =
    let based = inc_walk delete_orphans (f.suffix ∷ kept_suffixes) fs in
    let unbased = inc_walk delete_orphans kept_suffixes fs in
    if has_suffix f.inc_from_suffix kept_suffixes
    then record based { keep = f ∷ based.keep }
    else if delete_orphans
    then record unbased { remove = f ∷ unbased.remove }
    else record unbased { orphans = f ∷ unbased.orphans }

abbrev pub kept_fulls : List ℕ → List Indexed → List StreamFile
kept_fulls kept fulls = map (λ (r : Indexed). r.1) (keep_if (λ (r : Indexed). has r.0 kept) fulls)

abbrev pub removed_fulls : List ℕ → List Indexed → List StreamFile
removed_fulls kept fulls =
    map (λ (r : Indexed). r.1) (keep_if (λ (r : Indexed). not (has r.0 kept)) fulls)

unfoldable pub decide_prune_one_jail :
    (ℕ → ℕ) → List StreamFile → RetentionPolicy → Bool → PruneDecision StreamFile
decide_prune_one_jail month_bucket files policy delete_orphans =
    let fulls = fulls_by_epoch_desc files in
    let kept = kept_indices month_bucket policy fulls in
    let first = kept_fulls kept fulls in
    let walk = inc_walk delete_orphans (map (λ f. f.suffix) first) (incrementals_by_epoch files) in
    record {
      keep = first ++ walk.keep;
      remove = removed_fulls kept fulls ++ walk.remove;
      orphans = walk.orphans ++ keep_if (λ f. not (is_dated f)) files;
    }
