-- ===== src/Registry/IfaceOwners.antt =====
-- The registry of the owners of epair halves: lib/iface_owner_registry_pure.{h,cpp}. It answers the
-- gate's by_iface probe.
pub mod Halves
use crate.Base.{
  Bool, List, Option, Result, Text, [], all, cut_at, decimal, decimal_value, drop_last, err,
  fail_if, has, if◌then◌else◌, is_digit, is_empty, is_there, keep_if, last_or, leb, length, ltb,
  map, none, not, ok, some, split_on, text_before, text_eq, true, unlines, ℕ, ◌&&◌, ◌++◌, ◌+◌, ◌==◌,
  ◌>>=◌, ◌>>◌, ◌||◌, ◌∷◌,
}
use crate.Privops.Authz.{is_epair_iface_name}

-- `std::map` from names to uids, in the order of the names.
abbrev pub EntryMap : Type 0
EntryMap = List (Text × ℕ)

unfoldable pub find_iface : Text → EntryMap → Option ℕ
find_iface name [] = none
find_iface name ((n, u) ∷ m) =
    let rest = find_iface name m in if text_eq n name then some u else rest

unfoldable pub emplace : Text → ℕ → EntryMap → EntryMap
emplace name uid [] = (name, uid) ∷ []
emplace name uid ((n, u) ∷ m) =
    let rest = emplace name uid m in
    if text_before name n then (name, uid) ∷ (n, u) ∷ m else (n, u) ∷ rest

-- `parseDecimal`: ten digits at most, so that no value overflows.
unfoldable pub parse_decimal : Text → Option ℕ
parse_decimal s =
    if is_empty s || ltb 10 (length s)
    then none
    else if not (all is_digit s)
    then none
    else some (decimal_value s)

abbrev pub is_epair_name : Text → Bool
is_epair_name name = is_epair_iface_name name

unfoldable pub serialize : EntryMap → Text
serialize m = unlines (map (λ (r : Text × ℕ). r.0 ++ 9 ∷ decimal r.1) m)

-- The number is that of the line.
pub data ParseError : Type 0 where
  bad_columns uid_range : ℕ → ParseError
  not_a_half duplicate_iface : ℕ → Text → ParseError

abbrev pub in_uid_range : ParseError → Option ℕ → Result ParseError ℕ
in_uid_range e none = err e
in_uid_range e (some n) = if leb n 4294967295 then ok n else err e

unfoldable pub add_columns : ℕ → EntryMap → Text → Text → Result ParseError EntryMap
add_columns line_no out name rest = do
  fail_if (is_empty name || has 9 rest) (bad_columns line_no)
  fail_if (not (is_epair_name name)) (not_a_half line_no name)
  uid ← in_uid_range (uid_range line_no) (parse_decimal rest)
  fail_if (is_there (find_iface name out)) (duplicate_iface line_no name)
  ok (emplace name uid out)

abbrev pub is_comment : Text → Bool
is_comment [] = true
is_comment (c ∷ s) = c == b'#'

unfoldable pub parse_line : ℕ → EntryMap → Text → Result ParseError EntryMap
parse_line line_no out line = if is_comment line then ok out else elim (cut_at 9 line) [
  | none ↦ err (bad_columns line_no)
  | some (name, rest) ↦ add_columns line_no out name rest
]

unfoldable pub parse_lines : ℕ → EntryMap → List Text → Result ParseError EntryMap
parse_lines line_no out [] = ok out
parse_lines line_no out (l ∷ ls) = do
  out' ← parse_line line_no out l
  parse_lines (line_no + 1) out' ls

unfoldable pub parse : Text → Result ParseError EntryMap
parse text = parse_lines 1 [] (split_on 10 text)

-- `s.back() = c`.
abbrev pub set_back : Text → ℕ → Text
set_back s c = drop_last s ++ c ∷ []

unfoldable pub peer_half : Text → Text
peer_half name =
    if not (is_epair_name name)
    then []
    else set_back name (if last_or 0 name == b'a' then b'b' else b'a')

unfoldable pub host_half : Text → Text
host_half name = if not (is_epair_name name) then [] else set_back name b'a'

-- The test of `reconcile`, turned round.
abbrev pub is_kept : (Text → Bool) → Text → Bool
is_kept is_live name = not (is_empty (host_half name)) && is_live (host_half name)

unfoldable pub reconcile : EntryMap → Option (Text → Bool) → EntryMap × ℕ
reconcile m none = (m, 0)
reconcile m (some is_live) =
    let kept = keep_if (λ (r : Text × ℕ). is_kept is_live r.0) m in
    (kept, length (keep_if (λ (r : Text × ℕ). not (is_kept is_live r.0)) m))
