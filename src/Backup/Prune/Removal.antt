-- ===== src/Backup/Prune/Removal.antt =====
-- What a prune may remove, and that it forgets no stream: lib/backup_prune_pure.cpp.
use crate.Base.{
  Bool, List, Text, [], all, all-append, all-keep_if, all-sort_by, all_mono, arith, false, keep_if,
  length, length-append, length-map, length-sort_by, map, not, refl, sym, true, ℕ, ◌&&◌, ◌+◌, ◌||◌,
  ◌∙◌, ◌∷◌, ◌≡◌,
}
use crate.Backup.Prune.{
  StreamFile, Indexed, is_full, is_dated, inc_walk, kept_fulls, removed_fulls,
  decide_prune_one_jail, fulls_by_epoch_desc, incrementals_by_epoch, kept_indices, with_index,
  newer_first, older_first, RetentionPolicy,
}
use crate.Backup.Prune.Chains.{dated_full, fulls-all, removed_fulls-all, suffixes}

inc_walk_removes :
    (p : StreamFile → Bool) (d : Bool) (ks : List Text) (fs : List StreamFile)
    → all p fs ≡ true
    → all p (inc_walk d ks fs).remove ≡ true
unfolding inc_walk
inc_walk_removes p d ks [] h = refl
inc_walk_removes p d ks (f ∷ fs) h =
    ground (arith, inc_walk_removes p d ks fs, inc_walk_removes p d (f.suffix ∷ ks) fs)

inc_walk_leaves : (ks : List Text) (fs : List StreamFile) → (inc_walk false ks fs).remove ≡ []
unfolding inc_walk
inc_walk_leaves ks [] = refl
inc_walk_leaves ks (f ∷ fs) =
    ground (arith, inc_walk_leaves ks fs, inc_walk_leaves (f.suffix ∷ ks) fs)

abbrev counted : List StreamFile → List StreamFile → List StreamFile → ℕ
counted xs ys zs = length xs + length ys + length zs

inc_walk_counts :
    (d : Bool) (ks : List Text) (fs : List StreamFile)
    → let w = inc_walk d ks fs in counted w.keep w.remove w.orphans ≡ length fs
unfolding inc_walk
inc_walk_counts d ks [] = refl
inc_walk_counts d ks (f ∷ fs) =
    ground (arith, inc_walk_counts d ks fs, inc_walk_counts d (f.suffix ∷ ks) fs)

-- What may be removed: streams with a time, and incrementals only if orphans are to be deleted.
abbrev pub may_remove : Bool → StreamFile → Bool
may_remove delete_orphans f = is_dated f && (is_full f || delete_orphans)

incrementals-dated : (files : List StreamFile) → all is_dated (incrementals_by_epoch files) ≡ true
unfolding incrementals_by_epoch
incrementals-dated files =
    let test = λ (f : StreamFile). is_dated f && not (is_full f) in
    all-sort_by older_first is_dated (keep_if test files)
    ∙ all_mono test is_dated (keep_if test files) (λ f h. ground (arith, h))
        (all-keep_if test files)

walk_removal :
    (d : Bool) (ks : List Text) (files : List StreamFile)
    → all (may_remove d) (inc_walk d ks (incrementals_by_epoch files)).remove ≡ true
walk_removal true ks files =
    inc_walk_removes (may_remove true) true ks (incrementals_by_epoch files) (
      all_mono is_dated (may_remove true) (incrementals_by_epoch files) (λ f h. ground (arith, h))
        (incrementals-dated files))
walk_removal false ks files = rw (inc_walk_leaves ks (incrementals_by_epoch files)) refl

full_counts :
    (kept : List ℕ) (xs : List Indexed)
    → length (kept_fulls kept xs) + length (removed_fulls kept xs) ≡ length xs
full_counts kept [] = refl
full_counts kept (x ∷ xs) = ground (arith, full_counts kept xs)

file_counts :
    (i : ℕ) (files : List StreamFile)
    → counted
        (map (λ (r : Indexed). r.1) (keep_if dated_full (with_index i files)))
        (keep_if (λ f. is_dated f && not (is_full f)) files)
        (keep_if (λ f. not (is_dated f)) files)
      ≡ length files
unfolding with_index
file_counts i [] = refl
file_counts i (f ∷ files) = ground (arith, file_counts (i + 1) files)

fulls-length :
    (files : List StreamFile)
    → length (fulls_by_epoch_desc files)
      ≡ length (map (λ (r : Indexed). r.1) (keep_if dated_full (with_index 0 files)))
unfolding fulls_by_epoch_desc
fulls-length files =
    let fulls = keep_if dated_full (with_index 0 files) in
    length-sort_by newer_first fulls ∙ sym (length-map (λ (r : Indexed). r.1) fulls)

incrementals-length :
    (files : List StreamFile)
    → length (incrementals_by_epoch files)
      ≡ length (keep_if (λ f. is_dated f && not (is_full f)) files)
unfolding incrementals_by_epoch
incrementals-length files =
    length-sort_by older_first (keep_if (λ (f : StreamFile). is_dated f && not (is_full f)) files)

-- A prune removes only streams whose time could be read, and incrementals only if it is told to
-- delete orphans; and it puts as many streams into its three lists as there are.
pub removal_lem :
    (month : ℕ → ℕ) (files : List StreamFile) (policy : RetentionPolicy) (delete_orphans : Bool)
    → let d = decide_prune_one_jail month files policy delete_orphans in
      (all (may_remove delete_orphans) d.remove ≡ true)
      × (length d.keep + length d.remove + length d.orphans ≡ length files)
unfolding decide_prune_one_jail
removal_lem month files policy delete_orphans =
    let fulls = fulls_by_epoch_desc files in
    let kept = kept_indices month policy fulls in
    let first = kept_fulls kept fulls in
    let walk = inc_walk delete_orphans (suffixes first) (incrementals_by_epoch files) in
    let undated = keep_if (λ (f : StreamFile). not (is_dated f)) files in
    (
      all-append (may_remove delete_orphans) (removed_fulls kept fulls) walk.remove
          (removed_fulls-all (may_remove delete_orphans) kept fulls (
            all_mono dated_full (λ (r : Indexed). may_remove delete_orphans r.1) fulls
              (λ r h. ground (arith, h)) (fulls-all files)))
          (walk_removal delete_orphans (suffixes first) files),
      omega (
        arith,
        length-append first walk.keep,
        length-append (removed_fulls kept fulls) walk.remove,
        length-append walk.orphans undated,
        full_counts kept fulls,
        inc_walk_counts delete_orphans (suffixes first) (incrementals_by_epoch files),
        fulls-length files,
        incrementals-length files,
        file_counts 0 files,
      ),
    )
