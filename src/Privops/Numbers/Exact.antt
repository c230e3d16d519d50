-- ===== src/Privops/Numbers/Exact.antt =====
-- The 64-bit number parser of privileged requests against the value of the digits.
use crate.Base.{
  &&_elim, Bool, Option, Text, [], all, ap, ap₂, arith, decimal_from, decimal_from-ge,
  decimal_value, false, if◌then◌else◌, is_digit, is_empty, ltb, none, not, refl, some, subst, sym,
  true, ℕ, ◌%◌, ◌&&◌, ◌*◌, ◌+◌, ◌-◌, ◌/◌, ◌<◌, ◌^◌, ◌↔◌, ◌∙◌, ◌∷◌, ◌≡◌,
}
use crate.Privops.Numbers.{ulong_size, unsigned_loop, parse_unsigned_dec}

no_overflow :
    (acc c : ℕ)
    → is_digit c ≡ true
    → (ltb ((18446744073709551615 - (c - b'0')) / 10) acc ≡ false)
      ↔ (acc * 10 + (c - b'0') < ulong_size)
no_overflow acc c d = (λ h. ground arith, λ h. ground arith)

no_wrap : (v : ℕ) → v < ulong_size → v % ulong_size ≡ v
no_wrap v h = ground arith

unsigned_loop-digit :
    (acc c : ℕ) (s : Text)
    → is_digit c ≡ true
    → acc * 10 + (c - b'0') < ulong_size
    → unsigned_loop acc (c ∷ s) ≡ unsigned_loop (acc * 10 + (c - b'0')) s
unfolding unsigned_loop
unsigned_loop-digit acc c s d h =
    let fits = (no_overflow acc c d).1 h in
    ap₂
      (λ a b.
        if not a
        then none
        else if b
        then none
        else unsigned_loop ((acc * 10 + (c - b'0')) % ulong_size) s)
      d fits
    ∙ ap (λ v. unsigned_loop v s) (no_wrap (acc * 10 + (c - b'0')) h)

passed_tests :
    (a b : Bool) (o : Option ℕ) (n : ℕ)
    → (if not a then none else if b then none else o) ≡ some n
    → (a ≡ true) × (b ≡ false)
passed_tests false b o n h = cc
passed_tests true true o n h = cc
passed_tests true false o n h = (refl, refl)

unsigned_loop-first :
    (acc c : ℕ) (s : Text) (n : ℕ)
    → unsigned_loop acc (c ∷ s) ≡ some n
    → (is_digit c ≡ true) × (ltb ((18446744073709551615 - (c - b'0')) / 10) acc ≡ false)
unfolding unsigned_loop
unsigned_loop-first acc c s n h =
    passed_tests (is_digit c) (ltb ((18446744073709551615 - (c - b'0')) / 10) acc)
      (unsigned_loop ((acc * 10 + (c - b'0')) % ulong_size) s) n h

some-eq : (a b : ℕ) → ◌≡◌ {A = Option ℕ} (some a) (some b) → a ≡ b
some-eq a b h = cc

unsigned_loop_sound :
    (acc : ℕ) (s : Text) (n : ℕ)
    → acc < ulong_size
    → unsigned_loop acc s ≡ some n
    → (all is_digit s ≡ true) × (decimal_from acc s ≡ n) × (n < ulong_size)
unfolding unsigned_loop
unsigned_loop_sound acc [] n small h =
    let same = some-eq acc n h in (refl, same, subst (λ v. v < ulong_size) same small)
unsigned_loop_sound acc (c ∷ s) n small h =
    let (d, fits) = unsigned_loop-first acc c s n h in
    let bound = (no_overflow acc c d).0 fits in
    let (digits, value, low) =
      unsigned_loop_sound (acc * 10 + (c - b'0')) s n bound
        (sym (unsigned_loop-digit acc c s d bound) ∙ h) in
    (ap₂ ◌&&◌ d digits, value, low)

unsigned_loop_complete :
    (acc : ℕ) (s : Text)
    → all is_digit s ≡ true
    → decimal_from acc s < ulong_size
    → unsigned_loop acc s ≡ some (decimal_from acc s)
unfolding unsigned_loop
unsigned_loop_complete acc [] digits low = refl
unsigned_loop_complete acc (c ∷ s) digits low =
    let (d, rest) = &&_elim (is_digit c) (all is_digit s) digits in
    unsigned_loop-digit acc c s d (omega (arith, low, decimal_from-ge (acc * 10 + (c - b'0')) s))
    ∙ unsigned_loop_complete (acc * 10 + (c - b'0')) s rest low

-- The parser returns a number exactly for a text of one or more digits whose value is that number
-- and has at most 64 bits: its overflow test refuses every larger value and no other.
pub parse_unsigned_dec_iff :
    (s : Text) (n : ℕ)
    → (parse_unsigned_dec s ≡ some n)
      ↔ ((is_empty s ≡ false) × (all is_digit s ≡ true) × (decimal_value s ≡ n) × (n < 2 ^ 64))
unfolding parse_unsigned_dec
parse_unsigned_dec_iff [] n = (λ h. cc, λ h. cc)
parse_unsigned_dec_iff (c ∷ s) n = (
  (λ h.
      let (digits, value, low) = unsigned_loop_sound 0 (c ∷ s) n (ground arith) h in
      (refl, digits, value, low)),
  (λ h.
      let (_, digits, value, low) = h in
      unsigned_loop_complete 0 (c ∷ s) digits (subst (λ v. v < ulong_size) (sym value) low)
      ∙ ap some value),
)
