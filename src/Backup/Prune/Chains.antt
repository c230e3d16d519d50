-- ===== src/Backup/Prune/Chains.antt =====
-- A stream that is kept can be restored, and what is removed: lib/backup_prune_pure.cpp.
use crate.Base.{
  Bool, Bool-cases, List, Text, [], all, all-append, all-keep_if, all-sort_by, all_mono, arith, inl,
  inr, keep_if, map, refl, true, ℕ, ◌&&◌, ◌++◌, ◌||◌, ◌∙◌, ◌∷◌, ◌≡◌,
}
use crate.Backup.Prune.{
  StreamFile, Indexed, is_full, is_dated, has_suffix, inc_walk, kept_fulls, removed_fulls,
  decide_prune_one_jail, fulls_by_epoch_desc, incrementals_by_epoch, kept_indices, with_index,
  newer_first, RetentionPolicy,
}

abbrev pub suffixes : List StreamFile → List Text
suffixes = map (λ (f : StreamFile). f.suffix)

-- The base of a stream is in a list, or it needs none.
abbrev pub has_base : List StreamFile → StreamFile → Bool
has_base kept f = is_full f || has_suffix f.inc_from_suffix (suffixes kept)

abbrev walk_base : List Text → List StreamFile → StreamFile → Bool
walk_base ks kept f =
    has_suffix f.inc_from_suffix (suffixes kept) || has_suffix f.inc_from_suffix ks

inc_walk_based :
    (d : Bool) (ks : List Text) (fs : List StreamFile)
    → all (walk_base ks (inc_walk d ks fs).keep) (inc_walk d ks fs).keep ≡ true
unfolding inc_walk
inc_walk_based d ks [] = refl
inc_walk_based d ks (f ∷ fs) = elim (Bool-cases (has_suffix f.inc_from_suffix ks)) [
  | inl based ↦
      let later = inc_walk_based d (f.suffix ∷ ks) fs in
      rw based (
        ground (
          arith,
          based,
          all_mono (walk_base (f.suffix ∷ ks) (inc_walk d (f.suffix ∷ ks) fs).keep)
              (walk_base ks (f ∷ (inc_walk d (f.suffix ∷ ks) fs).keep))
              (inc_walk d (f.suffix ∷ ks) fs).keep (λ g h. ground (arith, h)) later,
        ))
  | inr unbased ↦ ground (arith, unbased, inc_walk_based d ks fs)
]

suffixes-append :
    (s : Text) (xs ys : List StreamFile)
    → has_suffix s (suffixes (xs ++ ys))
      ≡ (has_suffix s (suffixes xs) || has_suffix s (suffixes ys))
suffixes-append s [] ys = refl
suffixes-append s (x ∷ xs) ys = ground (arith, suffixes-append s xs ys)

pub kept_fulls-all :
    (p : StreamFile → Bool) (kept : List ℕ) (xs : List Indexed)
    → all (λ (r : Indexed). p r.1) xs ≡ true
    → all p (kept_fulls kept xs) ≡ true
kept_fulls-all p kept [] h = refl
kept_fulls-all p kept (x ∷ xs) h = ground (arith, kept_fulls-all p kept xs)

pub removed_fulls-all :
    (p : StreamFile → Bool) (kept : List ℕ) (xs : List Indexed)
    → all (λ (r : Indexed). p r.1) xs ≡ true
    → all p (removed_fulls kept xs) ≡ true
removed_fulls-all p kept [] h = refl
removed_fulls-all p kept (x ∷ xs) h = ground (arith, removed_fulls-all p kept xs)

abbrev pub dated_full : Indexed → Bool
dated_full r = is_dated r.1 && is_full r.1

pub fulls-all : (files : List StreamFile) → all dated_full (fulls_by_epoch_desc files) ≡ true
unfolding fulls_by_epoch_desc
fulls-all files =
    all-sort_by newer_first dated_full (keep_if dated_full (with_index 0 files))
    ∙ all-keep_if dated_full (with_index 0 files)

-- Every stream that is kept is a full one, or its base is kept as well.
pub kept_chains :
    (month : ℕ → ℕ) (files : List StreamFile) (policy : RetentionPolicy) (delete_orphans : Bool)
    → let d = decide_prune_one_jail month files policy delete_orphans in
      all (has_base d.keep) d.keep ≡ true
unfolding decide_prune_one_jail
kept_chains month files policy delete_orphans =
    let fulls = fulls_by_epoch_desc files in
    let first = kept_fulls (kept_indices month policy fulls) fulls in
    let walk = inc_walk delete_orphans (suffixes first) (incrementals_by_epoch files) in
    all-append (has_base (first ++ walk.keep)) first walk.keep
      (all_mono is_full (has_base (first ++ walk.keep)) first (λ f h. ground (arith, h))
        (kept_fulls-all is_full (kept_indices month policy fulls) fulls (
          all_mono dated_full (λ (r : Indexed). is_full r.1) fulls (λ r h. ground (arith, h))
            (fulls-all files))))
      (all_mono (walk_base (suffixes first) walk.keep) (has_base (first ++ walk.keep)) walk.keep
        (λ f h. ground (arith, h, suffixes-append f.inc_from_suffix first walk.keep))
        (inc_walk_based delete_orphans (suffixes first) (incrementals_by_epoch files)))
