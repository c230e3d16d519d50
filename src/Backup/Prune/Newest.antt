-- ===== src/Backup/Prune/Newest.antt =====
-- The newest full stream survives every prune: lib/backup_prune_pure.cpp.
use crate.Base.{
  Bool, Bool-cases, List, [], all, all-insert_sorted, all-keep_if, all-sort_by, all_mono, any,
  any-append, ap, arith, has, inl, inr, insert_sorted, keep_if, leb, not, refl, sort_by, sym, true,
  ℕ, ◌&&◌, ◌++◌, ◌+◌, ◌<◌, ◌==◌, ◌||◌, ◌∙◌, ◌∷◌, ◌≡◌,
}
use crate.Backup.Prune.{
  StreamFile, Indexed, is_full, is_dated, inc_walk, kept_fulls, decide_prune_one_jail,
  fulls_by_epoch_desc, incrementals_by_epoch, kept_indices, with_index, newer_first,
  RetentionPolicy, bucket_loop, bucket_keep, hour_bucket, day_bucket, week_bucket,
}
use crate.Backup.Prune.Chains.{dated_full, suffixes}

abbrev no_newer : Indexed → Indexed → Bool
no_newer h r = leb r.1.unix_epoch h.1.unix_epoch

-- The first element is the newest.
abbrev head_newest : List Indexed → Bool
head_newest [] = true
head_newest (h ∷ t) = all (no_newer h) t

insert-head_newest :
    (x : Indexed) (ys : List Indexed)
    → head_newest ys ≡ true
    → head_newest (insert_sorted newer_first x ys) ≡ true
unfolding insert_sorted
insert-head_newest x [] h = refl
insert-head_newest x (y ∷ ys) h = elim (Bool-cases (newer_first y x)) [
  | inl first ↦
      rw first (all-insert_sorted newer_first (no_newer y) x ys ∙ ground (arith, first, h))
  | inr later ↦ rw later (
      ground
        (arith, later, all_mono (no_newer y) (no_newer x) ys (λ r k. ground (arith, k, later)) h))
]

sort-head_newest : (xs : List Indexed) → head_newest (sort_by newer_first xs) ≡ true
unfolding sort_by
sort-head_newest [] = refl
sort-head_newest (x ∷ xs) = insert-head_newest x (sort_by newer_first xs) (sort-head_newest xs)

bucket_keep-head :
    (n : ℕ) (bucket_fn : ℕ → ℕ) (h : Indexed) (t : List Indexed)
    → 0 < n
    → has h.0 (bucket_keep (h ∷ t) n bucket_fn) ≡ true
unfolding bucket_keep bucket_loop
bucket_keep-head n bucket_fn h t p = ground arith

kept_indices-head :
    (month : ℕ → ℕ) (policy : RetentionPolicy) (h : Indexed) (t : List Indexed)
    → 0 < policy.hourly + policy.daily + policy.weekly + policy.monthly
    → has h.0 (kept_indices month policy (h ∷ t)) ≡ true
unfolding kept_indices
kept_indices-head month policy h t p =
    let hours = bucket_keep (h ∷ t) policy.hourly hour_bucket in
    let days = bucket_keep (h ∷ t) policy.daily day_bucket in
    let weeks = bucket_keep (h ∷ t) policy.weekly week_bucket in
    let months = bucket_keep (h ∷ t) policy.monthly month in
    let is_h = λ (b : ℕ). b == h.0 in
    any-append is_h hours (days ++ (weeks ++ months))
    ∙ ap (◌||◌ (any is_h hours)) (
        any-append is_h days (weeks ++ months)
        ∙ ap (◌||◌ (any is_h days)) (any-append is_h weeks months))
    ∙ ground (
      arith,
      p,
      bucket_keep-head policy.hourly hour_bucket h t,
      bucket_keep-head policy.daily day_bucket h t,
      bucket_keep-head policy.weekly week_bucket h t,
      bucket_keep-head policy.monthly month h t,
    )

-- A kept full stream that is no older than a given one.
abbrev pub as_new_as : StreamFile → StreamFile → Bool
as_new_as f k = is_full k && leb f.unix_epoch k.unix_epoch

abbrev pub covered_by : List StreamFile → StreamFile → Bool
covered_by kept f = not (is_dated f && is_full f) || any (as_new_as f) kept

all-with_index :
    (p : StreamFile → Bool) (i : ℕ) (files : List StreamFile)
    → all (λ (r : Indexed). p r.1) (keep_if dated_full (with_index i files)) ≡ true
    → all (λ f. not (is_dated f && is_full f) || p f) files ≡ true
unfolding with_index
all-with_index p i [] h = refl
all-with_index p i (f ∷ files) h = ground (arith, all-with_index p (i + 1) files)

-- The newest stream of a sorted list is kept, and no stream is newer.
sorted_covered :
    (month : ℕ → ℕ) (policy : RetentionPolicy) (xs : List Indexed) (later : List StreamFile)
    → 0 < policy.hourly + policy.daily + policy.weekly + policy.monthly
    → head_newest xs ≡ true
    → all dated_full xs ≡ true
    → all
        (λ (r : Indexed).
          any (as_new_as r.1) (kept_fulls (kept_indices month policy xs) xs ++ later))
        xs
      ≡ true
sorted_covered month policy [] later p h d = refl
sorted_covered month policy (x ∷ xs) later p h d =
    let first : has x.0 (kept_indices month policy (x ∷ xs)) ≡ true =
      kept_indices-head month policy x xs p in
    let full : is_full x.1 ≡ true = ground (arith, d) in
    all_mono (no_newer x)
      (λ (r : Indexed).
        any (as_new_as r.1) (kept_fulls (kept_indices month policy (x ∷ xs)) (x ∷ xs) ++ later))
      (x ∷ xs) (λ r k. rw first (ground (arith, k, full))) (ground (arith, h))

-- Under a policy that keeps anything at all, for each full stream with a time there is a full stream
-- that is kept and is no older: the newest one survives.
pub newest_survives :
    (month : ℕ → ℕ) (files : List StreamFile) (policy : RetentionPolicy) (delete_orphans : Bool)
    → 0 < policy.hourly + policy.daily + policy.weekly + policy.monthly
    → all (covered_by (decide_prune_one_jail month files policy delete_orphans).keep) files ≡ true
unfolding decide_prune_one_jail fulls_by_epoch_desc
newest_survives month files policy delete_orphans p =
    let fulls = keep_if dated_full (with_index 0 files) in
    let sorted = sort_by newer_first fulls in
    let first = kept_fulls (kept_indices month policy sorted) sorted in
    let walk = inc_walk delete_orphans (suffixes first) (incrementals_by_epoch files) in
    let ok_for = λ (r : Indexed). any (as_new_as r.1) (first ++ walk.keep) in
    all-with_index (λ f. any (as_new_as f) (first ++ walk.keep)) 0 files
      (sym (all-sort_by newer_first ok_for fulls)
        ∙ sorted_covered month policy sorted walk.keep p (sort-head_newest fulls) (
            all-sort_by newer_first dated_full fulls ∙ all-keep_if dated_full (with_index 0 files)))
