-- ===== src/Registry/JidOwners/Decimals.antt =====
-- The jid and uid columns: `parseDecimal` of lib/jid_owner_registry_pure.cpp.
use crate.Base.{
  &&_elim, Text, [], all, ap, arith, decimal, decimal-digits, decimal_from, decimal_from-ge,
  decimal_value, decimal_value-decimal, false, is_digit, is_empty-decimal, ltb, refl, some, true, ℕ,
  ◌%◌, ◌*◌, ◌+◌, ◌-◌, ◌<◌, ◌^◌, ◌∙◌, ◌∷◌, ◌≡◌, ◌≤◌,
}
use crate.Registry.JidOwners.{decimal_loop, parse_decimal}

decimal_loop-ge : (v : ℕ) (s : Text) (n : ℕ) → decimal_loop v s ≡ some n → v ≤ n
unfolding decimal_loop
decimal_loop-ge v [] n h = ground arith
decimal_loop-ge v (c ∷ s) n h = ground (arith, decimal_loop-ge ((v * 10 + (c - 48)) % 2 ^ 64) s n)

decimal_loop_exact :
    (v : ℕ) (s : Text) (n : ℕ)
    → decimal_loop v s ≡ some n
    → n ≤ 4294967295
    → (n ≡ decimal_from v s) × (all is_digit s ≡ true)
unfolding decimal_loop
decimal_loop_exact v [] n h small = (ground arith, refl)
decimal_loop_exact v (c ∷ s) n h small =
    let digit : is_digit c ≡ true = ground arith in
    let kept : ltb ((v * 10 + (c - 48)) % 2 ^ 64) v ≡ false = ground arith in
    let rest : decimal_loop ((v * 10 + (c - 48)) % 2 ^ 64) s ≡ some n = ground arith in
    let later = decimal_loop-ge ((v * 10 + (c - 48)) % 2 ^ 64) s n rest in
    let low : v ≤ n = ground (arith, kept, later) in
    let low_digit : c ≤ 57 = ground (arith, digit) in
    let whole : (v * 10 + (c - 48)) % 2 ^ 64 ≡ v * 10 + (c - 48) = omega arith in
    let (value, digits) = decimal_loop_exact ((v * 10 + (c - 48)) % 2 ^ 64) s n rest small in
    (rw whole at value, rw (digit, digits))

-- A number up to 2 ^ 32 - 1 that `parseDecimal` returns is the value of its digits, although the
-- test for an overflow does not catch each one.
pub parse_decimal_exact :
    (s : Text) (n : ℕ)
    → parse_decimal s ≡ some n
    → n ≤ 4294967295
    → (n ≡ decimal_value s) × (all is_digit s ≡ true)
unfolding parse_decimal
parse_decimal_exact s n h small = decimal_loop_exact 0 s n (ground arith) small

decimal_loop_value :
    (v : ℕ) (s : Text)
    → all is_digit s ≡ true
    → decimal_from v s < 2 ^ 64
    → decimal_loop v s ≡ some (decimal_from v s)
unfolding decimal_loop
decimal_loop_value v [] d small = refl
decimal_loop_value v (c ∷ s) d small =
    let (digit, digits) = &&_elim (is_digit c) (all is_digit s) d in
    let later = decimal_from-ge (v * 10 + (c - 48)) s in
    let whole : (v * 10 + (c - 48)) % 2 ^ 64 ≡ v * 10 + (c - 48) = omega (arith, later, small) in
    let kept : ltb (v * 10 + (c - 48)) v ≡ false = ground arith in
    rw (digit, whole) (rw kept (decimal_loop_value (v * 10 + (c - 48)) s digits small))

pub parse_decimal-decimal : (n : ℕ) → n < 2 ^ 64 → parse_decimal (decimal n) ≡ some n
unfolding parse_decimal
parse_decimal-decimal n small =
    let value = decimal_value-decimal n in
    let small' : decimal_value (decimal n) < 2 ^ 64 = omega (arith, value, small) in
    rw (is_empty-decimal n)
      (decimal_loop_value 0 (decimal n) (decimal-digits n) small' ∙ ap some value)
