-- ===== src/Privops/Numbers.antt =====
-- Numbers and link addresses in the fields of a privileged request: lib/privops_pure.cpp. An
-- `unsigned long` has 64 bits.
pub mod Exact
use crate.Base.{
  Bool, Option, Result, Text, [], all, cut_at, drop, err, fail_if, false, head_or, if◌then◌else◌,
  is_digit, is_empty, leb, length, ltb, none, not, ok, some, split_on, suc, true, ℕ, ◌%◌, ◌&&◌, ◌*◌,
  ◌+◌, ◌-◌, ◌/◌, ◌==◌, ◌>>=◌, ◌>>◌, ◌||◌, ◌∷◌,
}
use crate.Net.Syntax.{is_hex}

abbrev pub ulong_size : ℕ
ulong_size = 18446744073709551616

-- The loop over the digits; `~0UL - n` does not wrap, as `n` is below 10.
unfoldable pub unsigned_loop : ℕ → Text → Option ℕ
unsigned_loop acc [] = some acc
unsigned_loop acc (c ∷ s) =
    let n = c - b'0' in
    let rest = unsigned_loop ((acc * 10 + n) % ulong_size) s in
    if not (is_digit c)
    then none
    else if ltb ((18446744073709551615 - n) / 10) acc
    then none
    else rest

unfoldable pub parse_unsigned_dec : Text → Option ℕ
unfolding unsigned_loop
parse_unsigned_dec s = if is_empty s then none else unsigned_loop 0 s

-- `none` for the result -1.
unfoldable pub parse_ipv4_octet : Text → Option ℕ
unfolding parse_unsigned_dec
parse_ipv4_octet s =
    if is_empty s || ltb 3 (length s)
    then none
    else if ltb 1 (length s) && head_or 0 s == b'0'
    then none
    else elim (parse_unsigned_dec s) [ none ↦ none | some v ↦ if ltb 255 v then none else some v ]

pub data AddrFault : Type 0 where
  no_prefix prefix_range octet_count bad_octet : AddrFault
  mac_length mac_separator mixed_separator mac_digit multicast_mac : AddrFault

abbrev pub prefix_fits : ℕ → Option ℕ → Bool
prefix_fits max_prefix none = false
prefix_fits max_prefix (some pv) = leb pv max_prefix

abbrev pub is_octet : Option ℕ → Bool
is_octet none = false
is_octet (some v) = true

unfoldable pub check_v4_cut : Option (Text × Text) → Result AddrFault (Unit {0})
unfolding parse_unsigned_dec parse_ipv4_octet
check_v4_cut none = err no_prefix
check_v4_cut (some (addr, plen)) = do
  fail_if (not (prefix_fits 32 (parse_unsigned_dec plen))) prefix_range
  fail_if (not (length (split_on b'.' addr) == 4)) octet_count
  fail_if (not (all (λ p. is_octet (parse_ipv4_octet p)) (split_on b'.' addr))) bad_octet

unfoldable pub validate_ipv4_cidr : Text → Result AddrFault (Unit {0})
unfolding check_v4_cut
validate_ipv4_cidr cidr = if is_empty cidr then ok tt else check_v4_cut (cut_at b'/' cidr)

-- The loop from position `i` on, up to the first fault.
unfoldable pub mac_loop : ℕ → ℕ → Text → Result AddrFault (Unit {0})
mac_loop sep i [] = ok tt
mac_loop sep i (c ∷ mac) = do
  (if i % 3 == 2
      then fail_if (not (c == sep)) mixed_separator
      else fail_if (not (is_hex c)) mac_digit)
  mac_loop sep (suc i) mac

abbrev pub hex_value : ℕ → ℕ
hex_value c =
    if is_digit c
    then c - b'0'
    else if leb b'a' c && leb c b'f'
    then 10 + c - b'a'
    else 10 + c - b'A'

abbrev pub first_octet : Text → ℕ
first_octet mac = hex_value (head_or 0 mac) * 16 + hex_value (head_or 0 (drop 1 mac))

unfoldable pub validate_mac_address : Text → Result AddrFault (Unit {0})
unfolding mac_loop
validate_mac_address mac = if is_empty mac then ok tt else (do
  fail_if (not (length mac == 17)) mac_length
  fail_if (not (head_or 0 (drop 2 mac) == b':' || head_or 0 (drop 2 mac) == b'-')) mac_separator
  mac_loop (head_or 0 (drop 2 mac)) 0 mac
  fail_if (first_octet mac % 2 == 1) multicast_mac)
