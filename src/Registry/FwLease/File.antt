-- ===== src/Registry/FwLease/File.antt =====
-- The lease file: `serialize` and `parse` of lib/fw_lease_pure.cpp.
pub mod Entries
pub mod RoundTrip
use crate.Base.{
  Bool, List, Map, Option, Result, Text, [], all, codes, decimal, decimal_value, err, fail_if,
  false, find, get_lines, has, if◌then◌else◌, is_digit, is_empty, is_there, leb_ℤ, length, ltb, map,
  negsuc, none, not, ok, pos, pos_part, print_int, put, signed, some, split_on, strip_cr, text_eq,
  true, unlines, ℕ, ℤ, ◌&&◌, ◌++◌, ◌+◌, ◌-◌, ◌==◌, ◌>>=◌, ◌>>◌, ◌||◌, ◌∷◌,
}
use crate.Registry.FwLease.{State, Entry, k_max_slots, holds, empty_state}

abbrev pub flag : Bool → ℕ
flag true = 1
flag false = 0

unfoldable pub entry_line : ℕ × Entry → Text
entry_line (jid, e) =
    decimal jid
    ++ 9 ∷ (print_int e.slot ++ 9 ∷ (decimal (flag e.fwd4) ++ 9 ∷ decimal (flag e.fwd6)))

abbrev pub header_line : Text
header_line = codes "# crate fw leases v1"

unfoldable pub orig_line : State → Text
orig_line s =
    codes "orig4" ++ 9 ∷ (print_int s.orig4 ++ 9 ∷ (codes "orig6" ++ 9 ∷ print_int s.orig6))

unfoldable pub serialize : State → Text
serialize s = unlines (header_line ∷ orig_line s ∷ map entry_line s.leases)

-- `parseInt`: at most 12 bytes, so that no value overflows a long long.
abbrev pub int_body : Text → Bool × Text
int_body [] = (false, [])
int_body (c ∷ s) = if c == b'-' then (true, s) else (false, c ∷ s)

unfoldable pub parse_int : Text → ℤ → ℤ → Option ℤ
parse_int f lo hi =
    if is_empty f || ltb 12 (length f)
    then none
    else let (neg, digits) = int_body f in
      if neg && is_empty digits
      then none
      else if not (all is_digit digits)
      then none
      else let v = signed neg (decimal_value digits) in
        if leb_ℤ lo v && leb_ℤ v hi then some v else none

-- The number is that of the line.
pub data ParseError : Type 0 where
  bad_orig bad_fields bad_value : ℕ → ParseError
  duplicate_jid : ℕ → Text → ParseError
  slot_twice : ℕ → ParseError

-- A value that `parseInt` gave, or the error of the line.
abbrev pub or_fail : {A : Type 0} → ParseError → Option A → Result ParseError A
or_fail e none = err e
or_fail e (some a) = ok a

abbrev pub to_ℕ : ℤ → ℕ
to_ℕ = pos_part

abbrev pub is_one : ℤ → Bool
is_one (pos n) = n == 1
is_one (negsuc n) = false

unfoldable pub entry_fields : ℕ → State → Text → Text → Text → Text → Result ParseError State
entry_fields line_no st f0 f1 f2 f3 = do
  jid ← or_fail (bad_value line_no) (parse_int f0 (pos 1) (pos 65535))
  slot ← or_fail (bad_value line_no) (parse_int f1 (negsuc 0) (pos (k_max_slots - 1)))
  f4 ← or_fail (bad_value line_no) (parse_int f2 (pos 0) (pos 1))
  f6 ← or_fail (bad_value line_no) (parse_int f3 (pos 0) (pos 1))
  let e : Entry = record { slot = slot; fwd4 = is_one f4; fwd6 = is_one f6 }
  fail_if (is_there (find (to_ℕ jid) st.leases)) (duplicate_jid line_no f0)
  ok (record st { leases = put (to_ℕ jid) e st.leases })

unfoldable pub parse_fields : ℕ → State → List Text → Result ParseError State
parse_fields line_no st (f0 ∷ f1 ∷ f2 ∷ f3 ∷ []) =
    if text_eq f0 (codes "orig4") && text_eq f2 (codes "orig6")
    then (do
      a ← or_fail (bad_orig line_no) (parse_int f1 (negsuc 0) (pos 1))
      b ← or_fail (bad_orig line_no) (parse_int f3 (negsuc 0) (pos 1))
      ok (record st { orig4 = a; orig6 = b }))
    else entry_fields line_no st f0 f1 f2 f3
parse_fields line_no st _ = err (bad_fields line_no)

abbrev pub is_skipped : Text → Bool
is_skipped [] = true
is_skipped (c ∷ s) = c == b'#'

unfoldable pub parse_line : ℕ → State → Text → Result ParseError State
parse_line line_no st raw =
    let line = strip_cr raw in
    if is_skipped line then ok st else parse_fields line_no st (split_on 9 line)

unfoldable pub parse_lines : ℕ → State → List Text → Result ParseError State
parse_lines line_no st [] = ok st
parse_lines line_no st (l ∷ ls) = do st' ← parse_line line_no st l; parse_lines (line_no + 1) st' ls

-- The loop over `seen`: a slot held twice is corruption.
unfoldable pub check_slots : List ℕ → Map Entry → Result ParseError (Unit {0})
check_slots seen [] = ok tt
check_slots seen ((j, e) ∷ m) = elim e.slot [
  | pos n ↦ if has n seen then err (slot_twice n) else check_slots (n ∷ seen) m
  | negsuc n ↦ check_slots seen m
]

unfoldable pub parse : Text → Result ParseError State
parse text = do st ← parse_lines 1 empty_state (get_lines text); check_slots [] st.leases; ok st
