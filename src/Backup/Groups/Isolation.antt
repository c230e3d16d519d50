-- ===== src/Backup/Groups/Isolation.antt =====
-- A prune of a directory is, jail by jail, the prune of its own streams.
use crate.Base.{
  &&_elim, Bool, Bool-cases, List, Text, [], all, all-append, all-sort_by, all_mono, ap, append-nil,
  ap₂, arith, false, inl, inr, keep_if, keep_if-all, keep_if-append, keep_if-false, keep_if-true,
  map, not, refl, sort_by, sym, text_before, text_eq, text_eq→eq, true, ℕ, ◌&&◌, ◌++◌, ◌+◌, ◌∙◌,
  ◌∷◌, ◌≡◌,
}
use crate.Backup.Prune.{
  StreamFile, RetentionPolicy, PruneDecision, Indexed, with_index, newer_first, older_first,
  is_dated, is_full, fulls_by_epoch_desc, incrementals_by_epoch, kept_indices, kept_fulls,
  removed_fulls, inc_walk, decide_prune_one_jail,
}
use crate.Backup.Prune.Chains.{kept_fulls-all, removed_fulls-all}
use crate.Backup.Groups.{ByJail, group_from, append_decision, prune_groups, prune_streams}
use crate.Backup.Groups.Grouping.{
  text_before_differs, is_of, keys_after, is_grouped, of_jail, of_jail-nil, of_jail-here,
  of_jail-later, groups_lem,
}

-- One of the three lists.
pub data Field : Type 0 where
  kept removed orphaned : Field

abbrev pub pick : {A : Type 0} → Field → PruneDecision A → List A
pick kept d = d.keep
pick removed d = d.remove
pick orphaned d = d.orphans

with_index-all :
    (p : StreamFile → Bool) (i : ℕ) (fs : List StreamFile)
    → all (λ (r : Indexed). p r.1) (with_index i fs) ≡ all p fs
unfolding with_index
with_index-all p i [] = refl
with_index-all p i (f ∷ fs) = ground (arith, with_index-all p (i + 1) fs)

inc_walk-all :
    (p : StreamFile → Bool) (delete_orphans : Bool) (kept_suffixes : List Text)
    (fs : List StreamFile) (w : Field)
    → all p fs ≡ true
    → all p (pick w (inc_walk delete_orphans kept_suffixes fs)) ≡ true
unfolding inc_walk
inc_walk-all p del ks [] kept h = refl
inc_walk-all p del ks [] removed h = refl
inc_walk-all p del ks [] orphaned h = refl
inc_walk-all p del ks (f ∷ fs) kept h =
    ground (arith, inc_walk-all p del ks fs kept, inc_walk-all p del (f.suffix ∷ ks) fs kept)
inc_walk-all p del ks (f ∷ fs) removed h =
    ground (arith, inc_walk-all p del ks fs removed, inc_walk-all p del (f.suffix ∷ ks) fs removed)
inc_walk-all p del ks (f ∷ fs) orphaned h =
    ground
      (arith, inc_walk-all p del ks fs orphaned, inc_walk-all p del (f.suffix ∷ ks) fs orphaned)

fulls-all :
    (p : StreamFile → Bool) (files : List StreamFile)
    → all p files ≡ true
    → all (λ (r : Indexed). p r.1) (fulls_by_epoch_desc files) ≡ true
unfolding fulls_by_epoch_desc
fulls-all p files h =
    all-sort_by newer_first (λ (r : Indexed). p r.1)
      (keep_if (λ (r : Indexed). is_dated r.1 && is_full r.1) (with_index 0 files))
    ∙ keep_if-all (λ (r : Indexed). p r.1) (λ (r : Indexed). is_dated r.1 && is_full r.1)
        (with_index 0 files) (with_index-all p 0 files ∙ h)

incrementals-all :
    (p : StreamFile → Bool) (files : List StreamFile)
    → all p files ≡ true
    → all p (incrementals_by_epoch files) ≡ true
unfolding incrementals_by_epoch
incrementals-all p files h =
    all-sort_by older_first p (keep_if (λ f. is_dated f && not (is_full f)) files)
    ∙ keep_if-all p (λ f. is_dated f && not (is_full f)) files h

pick-append :
    (j : Text) (w : Field) (a b : PruneDecision StreamFile)
    → keep_if (is_of j) (pick w (append_decision a b))
      ≡ keep_if (is_of j) (pick w a) ++ keep_if (is_of j) (pick w b)
pick-append j kept a b = keep_if-append (is_of j) a.keep b.keep
pick-append j removed a b = keep_if-append (is_of j) a.remove b.remove
pick-append j orphaned a b = keep_if-append (is_of j) a.orphans b.orphans

none_there :
    (j : Text) (w : Field)
    → keep_if (is_of j) (pick w (record { keep = []; remove = []; orphans = [] })) ≡ []
none_there j kept = refl
none_there j removed = refl
none_there j orphaned = refl

of_jail_of_first : (k : Text) (m : ByJail) → keys_after k m ≡ true → of_jail k m ≡ []
of_jail_of_first k [] a = of_jail-nil k
of_jail_of_first k ((i, fs) ∷ m) a =
    let (first, rest) = &&_elim (text_before k i) (keys_after k m) a in
    of_jail-later k i fs m (text_before_differs k i first) ∙ of_jail_of_first k m rest

other_jail :
    (k j : Text) (fs : List StreamFile)
    → text_eq k j ≡ false
    → all (is_of k) fs ≡ true
    → all (λ f. not (is_of j f)) fs ≡ true
other_jail k j fs away h =
    all_mono (is_of k) (λ f. not (is_of j f)) fs
      (λ f own. ap (λ t. not (text_eq t j)) (text_eq→eq f.jail_name k own) ∙ ap not away) h

module _ (month : ℕ → ℕ) (policy : RetentionPolicy) (delete_orphans : Bool) where
  abbrev one : List StreamFile → PruneDecision StreamFile
  one fs = decide_prune_one_jail month fs policy delete_orphans

  one-all :
      (p : StreamFile → Bool) (w : Field) (fs : List StreamFile)
      → all p fs ≡ true
      → all p (pick w (one fs)) ≡ true
  unfolding decide_prune_one_jail
  one-all p w fs h =
      let fulls = fulls_by_epoch_desc fs in
      let indices = kept_indices month policy fulls in
      let first = kept_fulls indices fulls in
      let walk =
        inc_walk-all p delete_orphans (map (λ f. f.suffix) first) (incrementals_by_epoch fs) w
          (incrementals-all p fs h) in
      let own = fulls-all p fs h in
      elim w
          as (λ w.
            all p (
                pick w
                  (inc_walk delete_orphans (map (λ f. f.suffix) first) (incrementals_by_epoch fs)))
              ≡ true
            → all p (pick w (one fs)) ≡ true) [
              | kept ↦ λ walked. all-append p first _ (kept_fulls-all p indices fulls own) walked
              | removed ↦ λ walked.
                  all-append p (removed_fulls indices fulls) _
                    (removed_fulls-all p indices fulls own) walked
              | orphaned ↦ λ walked.
                  all-append p _ (keep_if (λ f. not (is_dated f)) fs) walked
                    (keep_if-all p (λ f. not (is_dated f)) fs h)
            ]
        walk

  one-nil : (w : Field) → pick w (one []) ≡ []
  unfolding decide_prune_one_jail fulls_by_epoch_desc incrementals_by_epoch with_index inc_walk
      sort_by
  one-nil kept = refl
  one-nil removed = refl
  one-nil orphaned = refl

  prune_groups-of_jail :
      (j : Text) (w : Field) (m : ByJail)
      → is_grouped m ≡ true
      → keep_if (is_of j) (pick w (prune_groups month policy delete_orphans m))
        ≡ pick w (one (of_jail j m))
  unfolding prune_groups is_grouped
  prune_groups-of_jail j w [] g =
      none_there j w ∙ sym (one-nil w) ∙ ap (λ fs. pick w (one fs)) (sym (of_jail-nil j))
  prune_groups-of_jail j w ((k, fs) ∷ m) g =
      let (own, g1) = &&_elim (all (is_of k) fs) (keys_after k m && is_grouped m) g in
      let (after, below) = &&_elim (keys_after k m) (is_grouped m) g1 in
      let mine = one-all (is_of k) w fs own in
      let rest = prune_groups-of_jail j w m below in
      let split = pick-append j w (one fs) (prune_groups month policy delete_orphans m) in
      elim (Bool-cases (text_eq k j)) [
        | inl here ↦
            let at = text_eq→eq k j here in
            let gone =
              ap (λ fs. pick w (one fs))
                (ap (λ t. of_jail t m) (sym at) ∙ of_jail_of_first k m after)
              ∙ one-nil w in
            split
            ∙ ap₂ (λ u v. u ++ v)
                (keep_if-true (is_of j) (pick w (one fs))
                  (ap (λ t. all (is_of t) (pick w (one fs))) (sym at) ∙ mine))
                (rest ∙ gone)
            ∙ append-nil (pick w (one fs))
            ∙ ap (λ fs. pick w (one fs)) (sym (of_jail-here j k fs m here))
        | inr away ↦
            split
            ∙ ap₂ (λ u v. u ++ v)
                (keep_if-false (is_of j) (pick w (one fs))
                  (other_jail k j (pick w (one fs)) away mine))
                (rest ∙ ap (λ fs. pick w (one fs)) (sym (of_jail-later j k fs m away)))
      ]

  -- In each of the three lists, the streams of a jail are those that the policy puts there when it
  -- sees the streams of that jail alone, in the same order.
  pub prune_streams-of_jail :
      (j : Text) (w : Field) (files : List StreamFile)
      → keep_if (is_of j) (pick w (prune_streams month policy delete_orphans files))
        ≡ pick w (decide_prune_one_jail month (keep_if (is_of j) files) policy delete_orphans)
  unfolding prune_streams
  prune_streams-of_jail j w files =
      let (grouped, mine) = groups_lem files in
      prune_groups-of_jail j w (group_from [] files) grouped ∙ ap (λ fs. pick w (one fs)) (mine j)
