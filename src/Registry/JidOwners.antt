-- ===== src/Registry/JidOwners.antt =====
-- The registry of jail owners: lib/jid_owner_registry_pure.{h,cpp}. It answers the gate's by_jid,
-- by_name and by_path probes.
pub mod Decimals
pub mod Around
pub mod Lookup
pub mod File
pub mod Parsed
pub mod Host
use crate.Base.{
  Bool, List, Map, Option, Result, Text, [], decimal, drop, err, fail_if, find, if◌then◌else◌,
  is_digit, is_empty, is_there, leb, length, ltb, map, none, not, ok, put, some, split_on,
  starts_with, text_eq, true, unlines, ℕ, ◌%◌, ◌&&◌, ◌*◌, ◌++◌, ◌+◌, ◌-◌, ◌==◌, ◌>>=◌, ◌>>◌, ◌^◌,
  ◌||◌, ◌∷◌,
}
use crate.Privops.Authz.{head_is}

pub record Entry : Type 0 where
  pub uid : ℕ
  pub name : Text
  pub path : Text

-- `parseDecimal` on uint64_t: the test for an overflow compares with the value before the digit.
unfoldable pub decimal_loop : ℕ → Text → Option ℕ
decimal_loop v [] = some v
decimal_loop v (c ∷ s) =
    let nv : ℕ = (v * 10 + (c - 48)) % 2 ^ 64 in
    let rest = decimal_loop nv s in
    if not (is_digit c) then none else if ltb nv v then none else rest

unfoldable pub parse_decimal : Text → Option ℕ
parse_decimal s = if is_empty s then none else decimal_loop 0 s

unfoldable pub entry_line : ℕ × Entry → Text
entry_line (jid, e) = decimal jid ++ 9 ∷ (decimal e.uid ++ 9 ∷ (e.name ++ 9 ∷ e.path))

unfoldable pub serialize : Map Entry → Text
serialize m = unlines (map entry_line m)

-- The number is that of the line.
pub data ParseError : Type 0 where
  bad_columns jid_range uid_range : ℕ → ParseError
  duplicate_jid : ℕ → ℕ → ParseError

abbrev pub in_jid_range : ℕ → Bool
in_jid_range n = ltb 0 n && leb n 65535

abbrev pub number : ParseError → (ℕ → Bool) → Option ℕ → Result ParseError ℕ
number e fits none = err e
number e fits (some n) = if fits n then ok n else err e

-- A line with its columns cut at the tabs: exactly four, none of them empty.
unfoldable pub add_columns : ℕ → Map Entry → List Text → Result ParseError (Map Entry)
add_columns line_no out (c0 ∷ c1 ∷ c2 ∷ c3 ∷ []) = do
  fail_if (is_empty c0 || (is_empty c1 || (is_empty c2 || is_empty c3))) (bad_columns line_no)
  jid ← number (jid_range line_no) in_jid_range (parse_decimal c0)
  uid ← number (uid_range line_no) (λ n. leb n 4294967295) (parse_decimal c1)
  fail_if (is_there (find jid out)) (duplicate_jid line_no jid)
  ok (put jid (record { uid = uid; name = c2; path = c3 }) out)
add_columns line_no out _ = err (bad_columns line_no)

abbrev pub is_comment : Text → Bool
is_comment [] = true
is_comment (c ∷ s) = c == b'#'

unfoldable pub parse_line : ℕ → Map Entry → Text → Result ParseError (Map Entry)
parse_line line_no out line =
    if is_comment line then ok out else add_columns line_no out (split_on 9 line)

unfoldable pub parse_lines : ℕ → Map Entry → List Text → Result ParseError (Map Entry)
parse_lines line_no out [] = ok out
parse_lines line_no out (l ∷ ls) = do
  out' ← parse_line line_no out l
  parse_lines (line_no + 1) out' ls

-- The loop over `pos` ends with the piece behind the last newline.
unfoldable pub parse : Text → Result ParseError (Map Entry)
parse text = parse_lines 1 [] (split_on 10 text)

unfoldable pub lookup_by_name : Map Entry → Text → Option (ℕ × Entry)
lookup_by_name [] name = none
lookup_by_name ((j, e) ∷ m) name =
    let rest = lookup_by_name m name in if text_eq e.name name then some (j, e) else rest

-- `exact || descendant` for an entry's path, which must not be empty.
unfoldable pub covers : Text → Text → Bool
covers p query =
    not (is_empty p)
    && (text_eq query p
        || (ltb (length p) (length query)
            && (starts_with p query && head_is b'/' (drop (length p) query))))

-- `!found || p.size() > bestLen`, where `bestLen` is the length of the best entry's path.
abbrev pub is_better : Entry → Option (ℕ × Entry) → Bool
is_better e none = true
is_better e (some (j, best)) = ltb (length best.path) (length e.path)

unfoldable pub owner_loop : Text → Map Entry → Option (ℕ × Entry) → Option (ℕ × Entry)
owner_loop query [] best = best
owner_loop query ((j, e) ∷ m) best =
    owner_loop query m (if covers e.path query && is_better e best then some (j, e) else best)

unfoldable pub find_owner_by_path : Map Entry → Text → Option (ℕ × Entry)
find_owner_by_path m query = owner_loop query m none

unfoldable pub keep_live : (ℕ → Entry → Bool) → Map Entry → Map Entry
keep_live is_live [] = []
keep_live is_live ((j, e) ∷ m) =
    let rest = keep_live is_live m in if is_live j e then (j, e) ∷ rest else rest

unfoldable pub dropped_of : (ℕ → Entry → Bool) → Map Entry → ℕ
dropped_of is_live [] = 0
dropped_of is_live ((j, e) ∷ m) = (if is_live j e then 0 else 1) + dropped_of is_live m

-- The probe may be unset; the number is that of the entries dropped.
unfoldable pub reconcile : Map Entry → Option (ℕ → Entry → Bool) → Map Entry × ℕ
reconcile m none = (m, 0)
reconcile m (some is_live) = (keep_live is_live m, dropped_of is_live m)
