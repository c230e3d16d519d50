-- ===== src/Backup/Names.antt =====
-- Names of stream files and their times: `parseStreamFilename`, `parseSuffixEpoch` and `explainKeeps`
-- of lib/backup_prune_pure.cpp. Years run from 1970, so that no difference of dates is negative.
use crate.Base.{
  Bool, List, Option, Result, Text, [], all, codes, cut_step, decimal, decimal_value, drop, err,
  fail_if, has, head_or, if◌then◌else◌, is_alnum, is_digit, is_empty, leb, length, ltb, none, not,
  ok, some, starts_with, take, text_eq, ℕ, ◌&&◌, ◌*◌, ◌++◌, ◌+◌, ◌-◌, ◌/◌, ◌==◌, ◌>>◌, ◌||◌, ◌∷◌,
}
use crate.Net.LeaseLine.{k_jail_name}
use crate.Backup.Prune.{
  StreamFile, RetentionPolicy, Indexed, fulls_by_epoch_desc, hour_bucket, day_bucket, week_bucket,
}

unfoldable pub civil_to_epoch : ℕ → ℕ → ℕ → ℕ → ℕ → ℕ → ℕ
civil_to_epoch year m d hh mm ss =
    let y = if leb m 2 then year - 1 else year in
    let era = y / 400 in
    let yoe = y - era * 400 in
    let doy = (153 * (if ltb 2 m then m - 3 else m + 9) + 2) / 5 + d - 1 in
    let doe = yoe * 365 + yoe / 4 - yoe / 100 + doy in
    let days = era * 146097 + doe - 719468 in days * 86400 + hh * 3600 + mm * 60 + ss

abbrev pub all_digits : Text → Bool
all_digits s = not (is_empty s) && all is_digit s

-- `s.substr(i, n)` and `s[i]`.
abbrev pub substr : ℕ → ℕ → Text → Text
substr i n s = take n (drop i s)

abbrev pub byte_at : ℕ → Text → ℕ
byte_at i s = head_or 0 (drop i s)

abbrev pub has_marks : Text → Bool
has_marks body =
    byte_at 4 body == b'-'
    && (byte_at 7 body == b'-'
        && (byte_at 10 body == b'T'
            && (byte_at 13 body == b':' && (byte_at 16 body == b':' && byte_at 19 body == b'Z'))))

abbrev pub has_numbers : Text → Bool
has_numbers body =
    all_digits (substr 0 4 body)
    && (all_digits (substr 5 2 body)
        && (all_digits (substr 8 2 body)
            && (all_digits (substr 11 2 body)
                && (all_digits (substr 14 2 body) && all_digits (substr 17 2 body)))))

abbrev pub in_calendar : ℕ → ℕ → ℕ → ℕ → ℕ → ℕ → Bool
in_calendar y m d hh mm ss =
    (leb 1970 y && leb y 9999)
    && ((leb 1 m && leb m 12) && ((leb 1 d && leb d 31) && (leb hh 23 && (leb mm 59 && leb ss 60))))

abbrev pub epoch_of : ℕ → ℕ → ℕ → ℕ → ℕ → ℕ → ℕ
epoch_of y m d hh mm ss = if in_calendar y m d hh mm ss then civil_to_epoch y m d hh mm ss else 0

abbrev pub epoch_prefix : Text
epoch_prefix = codes "backup-"

unfoldable pub parse_suffix_epoch : Text → ℕ
unfolding civil_to_epoch
parse_suffix_epoch suffix =
    let body = drop (length epoch_prefix) suffix in
    if not (length suffix == length epoch_prefix + 20) || not (starts_with epoch_prefix suffix)
    then 0
    else if not (has_marks body) || not (has_numbers body)
    then 0
    else epoch_of (decimal_value (substr 0 4 body)) (decimal_value (substr 5 2 body))
        (decimal_value (substr 8 2 body)) (decimal_value (substr 11 2 body))
        (decimal_value (substr 14 2 body)) (decimal_value (substr 17 2 body))

-- What stands before and behind the first, or the last, occurrence of a text.
unfoldable pub find_first : Text → Text → Option (Text × Text)
find_first tag [] = none
find_first tag (c ∷ s) =
    let rest = cut_step c (find_first tag s) in
    if starts_with tag (c ∷ s) then some ([], drop (length tag) (c ∷ s)) else rest

abbrev or_here : Text → Text → Option (Text × Text) → Option (Text × Text)
or_here tag s none = if starts_with tag s then some ([], drop (length tag) s) else none
or_here tag s (some found) = some found

unfoldable pub find_last : Text → Text → Option (Text × Text)
find_last tag [] = none
find_last tag (c ∷ s) = or_here tag (c ∷ s) (cut_step c (find_last tag s))

pub data NameError : Type 0 where
  too_short no_extension no_backup_tag jail_length jail_char bad_suffix bad_inc_from : NameError

abbrev pub stream_ext : Text
stream_ext = codes ".zstream"

abbrev pub inc_tag : Text
inc_tag = codes ".inc-from-"

abbrev pub backup_tag : Text
backup_tag = codes "-backup-"

abbrev pub is_jail_char : ℕ → Bool
is_jail_char c = is_alnum c || (c == b'.' || (c == b'_' || c == b'-'))

abbrev pub cut_inc : Text → Option (Text × Text) → Text × Text
cut_inc stem none = (stem, [])
cut_inc stem (some cut) = cut

-- The part behind `bp`.
abbrev pub name_of : Text → Text → Text → Text → Result NameError StreamFile
name_of basename jail suffix inc_from = do
  fail_if (is_empty jail || ltb k_jail_name (length jail)) jail_length
  fail_if (not (all is_jail_char jail)) jail_char
  fail_if (parse_suffix_epoch suffix == 0) bad_suffix
  fail_if (not (is_empty inc_from) && parse_suffix_epoch inc_from == 0) bad_inc_from
  ok (record {
    filename = basename;
    jail_name = jail;
    suffix = suffix;
    inc_from_suffix = inc_from;
    unix_epoch = parse_suffix_epoch suffix;
  })

abbrev pub parse_stem : Text → Text × Text → Result NameError StreamFile
parse_stem basename (stem, inc_from) = elim (find_last backup_tag stem) [
  | none ↦ err no_backup_tag
  | some (jail, after) ↦
      if is_empty jail
      then err no_backup_tag
      else name_of basename jail (drop (length jail + 1) stem) inc_from
]

unfoldable pub parse_stream_filename : Text → Result NameError StreamFile
unfolding parse_suffix_epoch find_first find_last
parse_stream_filename basename =
    let size = length basename - length stream_ext in
    if leb (length basename) (length stream_ext)
    then err too_short
    else if not (text_eq (drop size basename) stream_ext)
    then err no_extension
    else let stem = take size basename in
      parse_stem basename (cut_inc stem (find_first inc_tag stem))

pub record KeepReason : Type 0 where
  pub file_index : ℕ
  pub reason : Text

-- `seen[jail]` of the map from jails to sets of keys.
unfoldable pub keys_of : Text → List (Text × List ℕ) → List ℕ
keys_of jail [] = []
keys_of jail ((k, keys) ∷ seen) =
    let rest = keys_of jail seen in if text_eq k jail then keys else rest

-- One bucket of `explainKeeps`; a new entry of the map hides the one before.
unfoldable pub explain_bucket :
    Text → ℕ → (ℕ → ℕ) → List (Text × List ℕ) → List Indexed → List KeepReason
unfolding keys_of
explain_bucket name n bucket_fn seen [] = []
explain_bucket name n bucket_fn seen ((i, f) ∷ fs) =
    let keys = keys_of f.jail_name seen in
    let key = bucket_fn f.unix_epoch in
    let skipped = explain_bucket name n bucket_fn seen fs in
    let rest = explain_bucket name n bucket_fn ((f.jail_name, key ∷ keys) ∷ seen) fs in
    let found : KeepReason = record {
      file_index = i;
      reason = name ++ b':' ∷ decimal (length keys + 1);
    } in
    if leb n (length keys) then skipped else if has key keys then skipped else found ∷ rest

abbrev pub explain_if : Text → ℕ → (ℕ → ℕ) → List Indexed → List KeepReason
explain_if name n bucket_fn fulls = if n == 0 then [] else explain_bucket name n bucket_fn [] fulls

unfoldable pub explain_keeps : (ℕ → ℕ) → List StreamFile → RetentionPolicy → List KeepReason
unfolding explain_bucket fulls_by_epoch_desc
explain_keeps month_bucket files policy =
    let fulls = fulls_by_epoch_desc files in
    explain_if (codes "hourly") policy.hourly hour_bucket fulls
    ++ (explain_if (codes "daily") policy.daily day_bucket fulls
        ++ (explain_if (codes "weekly") policy.weekly week_bucket fulls
            ++ explain_if (codes "monthly") policy.monthly month_bucket fulls))
