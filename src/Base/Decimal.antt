-- ===== src/Base/Decimal.antt =====
-- Decimal numbers: what `std::to_string`, `operator<<` and `%u` write for an unsigned value, and the
-- value of a run of digits, which the program's parsers build by `v = v * 10 + (c - '0')`.
use Prim.Native.Nat.{ℕ, zero, suc, ◌+◌, ◌-◌, ◌*◌, ◌/◌, ◌%◌, ◌^◌, ◌<◌, ◌≤◌}
use mathlib.Core.Path.{◌≡◌, refl, ap, sym, ◌∙◌}
use mathlib.Core.Logic.{inl, inr}
use native.Mathlib.Nat.{pow-suc}
use mathlib.Core.Bool.{Bool, true, false}
use mathlib.Core.List.{[], ◌∷◌, ◌++◌, append-nil, append_assoc}
use native.Mathlib.Omega.{arith}
use crate.Base.Int.{ℤ, pos, negsuc}
use crate.Base.Tests.{ltb, &&_elim, Bool-cases, lt→ltb}
use crate.Base.Lists.{all, length, length-append, all-append, is_empty}
use crate.Base.Bytes.{Text, is_digit, has}

decimal_fuel : ℕ → ℕ → Text
decimal_fuel zero n = []
decimal_fuel (suc f) n = elim (ltb n 10) [
  | true ↦ (48 + n) ∷ []
  | false ↦ decimal_fuel f (n / 10) ++ (48 + n % 10) ∷ []
]

unfoldable pub decimal : ℕ → Text
unfolding decimal_fuel
decimal n = decimal_fuel (suc n) n

-- The value of digits behind those that gave `acc`.
abbrev pub decimal_from : ℕ → Text → ℕ
decimal_from acc [] = acc
decimal_from acc (c ∷ s) = decimal_from (acc * 10 + (c - 48)) s

abbrev pub decimal_value : Text → ℕ
decimal_value s = decimal_from 0 s

pub decimal_from-append :
    (acc : ℕ) (s t : Text) → decimal_from acc (s ++ t) ≡ decimal_from (decimal_from acc s) t
decimal_from-append acc [] t = refl
decimal_from-append acc (c ∷ s) t = decimal_from-append (acc * 10 + (c - 48)) s t

pub decimal_from-ge : (acc : ℕ) (s : Text) → acc ≤ decimal_from acc s
decimal_from-ge acc [] = omega arith
decimal_from-ge acc (c ∷ s) = omega (arith, decimal_from-ge (acc * 10 + (c - 48)) s)

fuel_value : (f n : ℕ) → n < f → decimal_value (decimal_fuel f n) ≡ n
unfolding decimal_fuel
fuel_value zero n h = elim h [ ]
fuel_value (suc f) n h = elim (Bool-cases (ltb n 10)) [
  | inl e ↦ rw (e, decimal_fuel) (omega arith)
  | inr e ↦
      rw (e, decimal_fuel)
        (omega (
          arith,
          decimal_from-append 0 (decimal_fuel f (n / 10)) ((48 + n % 10) ∷ []),
          fuel_value f (n / 10) (ground arith),
        ))
]

fuel_digits : (f n : ℕ) → all is_digit (decimal_fuel f n) ≡ true
unfolding decimal_fuel
fuel_digits zero n = refl
fuel_digits (suc f) n = elim (Bool-cases (ltb n 10)) [
  | inl e ↦ rw (e, decimal_fuel) (ground arith)
  | inr e ↦
      rw (e, decimal_fuel)
        (all-append is_digit (decimal_fuel f (n / 10)) ((48 + n % 10) ∷ []) (fuel_digits f (n / 10))
          (ground arith))
]

-- The value that is written is the value that is read back.
pub decimal_value-decimal : (n : ℕ) → decimal_value (decimal n) ≡ n
unfolding decimal
decimal_value-decimal n = fuel_value (suc n) n (omega arith)

pub decimal-digits : (n : ℕ) → all is_digit (decimal n) ≡ true
unfolding decimal
decimal-digits n = fuel_digits (suc n) n

pub decimal-injective : (m n : ℕ) → decimal m ≡ decimal n → m ≡ n
decimal-injective m n e =
    sym (decimal_value-decimal m) ∙ ap decimal_value e ∙ decimal_value-decimal n

-- A positive number's text starts with a digit other than 0.
abbrev pub nonzero_head : Text → Bool
nonzero_head [] = false
nonzero_head (c ∷ s) = ltb 48 c

nonzero_head-append : (s t : Text) → nonzero_head s ≡ true → nonzero_head (s ++ t) ≡ true
nonzero_head-append [] t h = cc
nonzero_head-append (c ∷ s) t h = h

fuel_head : (f n : ℕ) → n < f → 0 < n → nonzero_head (decimal_fuel f n) ≡ true
unfolding decimal_fuel
fuel_head zero n h p = elim h [ ]
fuel_head (suc f) n h p = elim (Bool-cases (ltb n 10)) [
  | inl e ↦ rw (e, decimal_fuel) (ground arith)
  | inr e ↦
      rw (e, decimal_fuel)
        (nonzero_head-append (decimal_fuel f (n / 10)) ((48 + n % 10) ∷ [])
          (fuel_head f (n / 10) (ground arith) (ground arith)))
]

pub decimal-nonzero_head : (n : ℕ) → 0 < n → nonzero_head (decimal n) ≡ true
unfolding decimal
decimal-nonzero_head n p = fuel_head (suc n) n (omega arith) p

pub decimal-zero : decimal 0 ≡ 48 ∷ []
unfolding decimal
decimal-zero = refl

fuel_length : (k f n : ℕ) → n < f → n < 10 ^ suc k → length (decimal_fuel f n) ≤ suc k
unfolding decimal_fuel
fuel_length k zero n h p = elim h [ ]
fuel_length zero (suc f) n h p = rw (lt→ltb n 10 p, decimal_fuel) (omega arith)
fuel_length (suc k) (suc f) n h p = elim (Bool-cases (ltb n 10)) [
  | inl e ↦ rw (e, decimal_fuel) (omega arith)
  | inr e ↦
      rw (e, decimal_fuel)
        (omega (
          arith,
          length-append (decimal_fuel f (n / 10)) ((48 + n % 10) ∷ []),
          fuel_length k f (n / 10) (ground arith) (omega (arith, pow-suc 10 (suc k))),
        ))
]

-- A number below 10 ^ k has at most k digits.
pub length-decimal : (k n : ℕ) → n < 10 ^ suc k → length (decimal n) ≤ suc k
unfolding decimal
length-decimal k n p = fuel_length k (suc n) n (omega arith) p

-- A text of digits holds no other byte.
pub has-digits : (c : ℕ) (s : Text) → is_digit c ≡ false → all is_digit s ≡ true → has c s ≡ false
has-digits c [] h d = refl
has-digits c (b ∷ s) h d = ground (arith, has-digits c s)

pub has-decimal : (c n : ℕ) → is_digit c ≡ false → has c (decimal n) ≡ false
has-decimal c n h = has-digits c (decimal n) h (decimal-digits n)

is_empty-nonzero_head : (s : Text) → nonzero_head s ≡ true → is_empty s ≡ false
is_empty-nonzero_head [] h = cc
is_empty-nonzero_head (c ∷ s) h = refl

pub is_empty-decimal : (n : ℕ) → is_empty (decimal n) ≡ false
is_empty-decimal zero = rw decimal-zero
is_empty-decimal (suc n) =
    is_empty-nonzero_head (decimal (suc n)) (decimal-nonzero_head (suc n) (omega arith))

-- The fuel does not matter once it passes the number.
fuel_irrelevant : (f g n : ℕ) → n < f → n < g → decimal_fuel f n ≡ decimal_fuel g n
unfolding decimal_fuel
fuel_irrelevant zero g n h k = elim h [ ]
fuel_irrelevant (suc f) zero n h k = elim k [ ]
fuel_irrelevant (suc f) (suc g) n h k = elim (Bool-cases (ltb n 10)) [
  | inl e ↦ rw (e, decimal_fuel)
  | inr e ↦
      rw (e, decimal_fuel)
        (ap (λ t. t ++ (48 + n % 10) ∷ [])
          (fuel_irrelevant f g (n / 10) (ground arith) (ground arith)))
]

pub decimal_one : (n : ℕ) → n < 10 → decimal n ≡ (48 + n) ∷ []
unfolding decimal
decimal_one n h = rw (lt→ltb n 10 h, decimal_fuel)

-- A digit behind a positive number multiplies it by ten.
pub decimal-snoc : (n d : ℕ) → 0 < n → d < 10 → decimal (n * 10 + d) ≡ decimal n ++ (48 + d) ∷ []
unfolding decimal decimal_fuel
decimal-snoc n d p h =
    let big : ltb (n * 10 + d) 10 ≡ false = ground arith in
    let q : (n * 10 + d) / 10 ≡ n = omega arith in
    let r : (n * 10 + d) % 10 ≡ d = omega arith in
    rw (big, decimal_fuel)
      (rw (q, r)
        (ap (λ t. t ++ (48 + d) ∷ [])
          (fuel_irrelevant (n * 10 + d) (suc n) n (omega arith) (omega arith))))

decimal-decimal_from :
    (acc : ℕ) (s : Text)
    → 0 < acc
    → all is_digit s ≡ true
    → decimal (decimal_from acc s) ≡ decimal acc ++ s
decimal-decimal_from acc [] p h = sym (append-nil (decimal acc))
decimal-decimal_from acc (c ∷ s) p h =
    let (dc, ds) = &&_elim (is_digit c) (all is_digit s) h in
    let back : 48 + (c - 48) ≡ c = ground arith in
    decimal-decimal_from (acc * 10 + (c - 48)) s (omega arith) ds
    ∙ ap (λ t. t ++ s) (decimal-snoc acc (c - 48) p (ground arith))
    ∙ append_assoc (decimal acc) ((48 + (c - 48)) ∷ []) s
    ∙ ap (λ b. decimal acc ++ b ∷ s) back

-- Digits with no leading zero are the text of their value.
pub decimal-decimal_value :
    (s : Text) → all is_digit s ≡ true → nonzero_head s ≡ true → decimal (decimal_value s) ≡ s
decimal-decimal_value [] d h = cc
decimal-decimal_value (c ∷ s) d h =
    let (dc, ds) = &&_elim (is_digit c) (all is_digit s) d in
    let back : 48 + (c - 48) ≡ c = ground arith in
    let start : 0 * 10 + (c - 48) ≡ c - 48 = omega arith in
    ap (λ (n : ℕ). decimal (decimal_from n s)) start
    ∙ decimal-decimal_from (c - 48) s (ground arith) ds
    ∙ ap (λ t. t ++ s) (decimal_one (c - 48) (ground arith))
    ∙ ap (λ b. b ∷ s) back

-- `o << n` for a signed number.
unfoldable pub print_int : ℤ → Text
print_int (pos n) = decimal n
print_int (negsuc n) = b'-' ∷ decimal (suc n)
