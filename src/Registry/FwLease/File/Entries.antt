-- ===== src/Registry/FwLease/File/Entries.antt =====
-- The numbers and the entry lines of the lease file, read back: lib/fw_lease_pure.cpp.
use crate.Base.{
  Bool, Text, [], all, ap, arith, codes, decimal, decimal-digits, decimal_value-decimal, false,
  find, has, has-append, has-decimal, is_digit, is_empty, is_empty-decimal, leb_ℤ, length,
  length-decimal, le→leb, ltb, negsuc, none, ok, pos, print_int, put, refl, some, split_on,
  split_on-append, split_on-piece, strip_cr-has, suc, text_eq, true, ℕ, ℤ, ◌++◌, ◌+◌, ◌-◌, ◌<◌,
  ◌==◌, ◌^◌, ◌∙◌, ◌∷◌, ◌≡◌, ◌≤◌,
}
use crate.Registry.FwLease.{State, Entry, k_max_slots}
use crate.Registry.FwLease.File.{
  entry_line, parse_int, entry_fields, parse_fields, parse_line, int_body, flag, is_skipped, is_one,
}

int_body-digits : (s : Text) → all is_digit s ≡ true → int_body s ≡ (false, s)
int_body-digits [] h = refl
int_body-digits (c ∷ s) h = ground arith

parse_int-decimal :
    (n hi : ℕ) (lo : ℤ)
    → n ≤ hi
    → hi < 10 ^ 11
    → leb_ℤ lo (pos n) ≡ true
    → parse_int (decimal n) lo (pos hi) ≡ some (pos n)
unfolding parse_int
parse_int-decimal n hi lo h small low =
    let short : ltb 12 (length (decimal n)) ≡ false =
      ground (arith, length-decimal 10 n (omega arith)) in
    let high : leb_ℤ (pos n) (pos hi) ≡ true = ground arith in
    rw (is_empty-decimal n, short, int_body-digits (decimal n) (decimal-digits n))
      (rw (decimal-digits n, decimal_value-decimal n) (rw low (ground (arith, high))))

parse_int-minus_one :
    (hi : ℕ) → parse_int (print_int (negsuc 0)) (negsuc 0) (pos hi) ≡ some (negsuc 0)
unfolding parse_int print_int decimal
parse_int-minus_one hi = ground arith

parse_int-flag : (b : Bool) → parse_int (decimal (flag b)) (pos 0) (pos 1) ≡ some (pos (flag b))
parse_int-flag true = parse_int-decimal 1 1 (pos 0) (omega arith) (omega arith) refl
parse_int-flag false = parse_int-decimal 0 1 (pos 0) (omega arith) (omega arith) refl

-- What an int of the file may be: -1, or below a limit.
abbrev pub Within : ℕ → ℤ → Type 0
Within hi (pos n) = n ≤ hi
Within hi (negsuc n) = n ≡ 0

pub parse_int-print :
    (hi : ℕ) (z : ℤ)
    → Within hi z
    → hi < 10 ^ 11
    → parse_int (print_int z) (negsuc 0) (pos hi) ≡ some z
unfolding print_int
parse_int-print hi (pos n) h small = parse_int-decimal n hi (negsuc 0) h small (ground arith)
parse_int-print hi (negsuc n) h small = rw h (parse_int-minus_one hi)

-- No number of a line has a tab or a newline.
pub print_int-has :
    (c : ℕ) (z : ℤ) → is_digit c ≡ false → (b'-' == c) ≡ false → has c (print_int z) ≡ false
unfolding print_int
print_int-has c (pos n) h k = has-decimal c n h
print_int-has c (negsuc n) h k = ground (arith, has-decimal c (suc n) h)

split-entry_line :
    (j : ℕ) (e : Entry)
    → split_on 9 (entry_line (j, e))
      ≡ decimal j ∷ print_int e.slot ∷ decimal (flag e.fwd4) ∷ decimal (flag e.fwd6) ∷ []
unfolding entry_line
split-entry_line j e =
    split_on-append 9 (decimal j) _ (has-decimal 9 j refl)
    ∙ ap (◌∷◌ (decimal j)) (
        split_on-append 9 (print_int e.slot) _ (print_int-has 9 e.slot refl refl)
        ∙ ap (◌∷◌ (print_int e.slot)) (
            split_on-append 9 (decimal (flag e.fwd4)) _ (has-decimal 9 (flag e.fwd4) refl)
            ∙ ap (◌∷◌ (decimal (flag e.fwd4)))
                (split_on-piece 9 (decimal (flag e.fwd6)) (has-decimal 9 (flag e.fwd6) refl))))

pub has-tab :
    (c : ℕ) (s t : Text)
    → (9 == c) ≡ false
    → has c s ≡ false
    → has c t ≡ false
    → has c (s ++ 9 ∷ t) ≡ false
has-tab c s t k h g = has-append c s (9 ∷ t) h (ground arith)

pub has-entry_line :
    (c j : ℕ) (e : Entry)
    → is_digit c ≡ false
    → (b'-' == c) ≡ false
    → (9 == c) ≡ false
    → has c (entry_line (j, e)) ≡ false
unfolding entry_line
has-entry_line c j e h k t = has-tab c (decimal j) _ t (has-decimal c j h) (
    has-tab c (print_int e.slot) _ t (print_int-has c e.slot h k) (
      has-tab c (decimal (flag e.fwd4)) _ t (has-decimal c (flag e.fwd4) h)
        (has-decimal c (flag e.fwd6) h)))

is_skipped-digits :
    (s t : Text) → all is_digit s ≡ true → is_empty s ≡ false → is_skipped (s ++ t) ≡ false
is_skipped-digits [] t h k = cc
is_skipped-digits (c ∷ s) t h k = ground arith

orig4-digits : (s : Text) → all is_digit s ≡ true → text_eq s (codes "orig4") ≡ false
orig4-digits [] h = refl
orig4-digits (c ∷ s) h = ground arith

flag-is_one : (b : Bool) → is_one (pos (flag b)) ≡ b
flag-is_one true = refl
flag-is_one false = refl

entry_fields-print :
    (n j : ℕ) (st : State) (e : Entry)
    → 1 ≤ j
    → j ≤ 65535
    → Within (k_max_slots - 1) e.slot
    → find j st.leases ≡ none
    → entry_fields n st
        (decimal j)
        (print_int e.slot)
        (decimal (flag e.fwd4))
        (decimal (flag e.fwd6))
      ≡ ok (record st { leases = put j e st.leases })
unfolding entry_fields
entry_fields-print n j st e lo hi w free =
    rw
      (
        parse_int-decimal j 65535 (pos 1) hi (omega arith) (le→leb 1 (j + 0) (omega arith)),
        parse_int-print (k_max_slots - 1) e.slot w (omega arith),
        parse_int-flag e.fwd4,
        parse_int-flag e.fwd6,
      )
      (rw (flag-is_one e.fwd4, flag-is_one e.fwd6) (rw free))

pub parse_line-entry :
    (n j : ℕ) (st : State) (e : Entry)
    → 1 ≤ j
    → j ≤ 65535
    → Within (k_max_slots - 1) e.slot
    → find j st.leases ≡ none
    → parse_line n st (entry_line (j, e)) ≡ ok (record st { leases = put j e st.leases })
unfolding parse_line parse_fields
parse_line-entry n j st e lo hi w free =
    let plain = strip_cr-has (entry_line (j, e)) (has-entry_line 13 j e refl refl refl) in
    let kept : is_skipped (entry_line (j, e)) ≡ false =
      unfold entry_line in
      is_skipped-digits (decimal j) _ (decimal-digits j) (is_empty-decimal j) in
    rw plain (
      rw kept (
        rw (split-entry_line j e) (
          rw (orig4-digits (decimal j) (decimal-digits j))
            (entry_fields-print n j st e lo hi w free))))
