-- ===== src/Net/Ipv4/RoundTrip.antt =====
-- Printing and parsing of IPv4 addresses.
use crate.Base.{
  Bool-cases, List, Option-cases, Text, [], all, ap, arith, decimal, decimal-decimal_value,
  decimal-digits, decimal-nonzero_head, decimal-zero, decimal_from, decimal_from-ge, decimal_one,
  decimal_value, decimal_value-decimal, false, has, has-append, has-decimal, inl, inr, is_digit,
  is_empty, is_empty-decimal, join, join-split_on, length, length-decimal, nonzero_head, ok,
  ok_injective, refl, some, split_on, split_on-append, split_on-piece, subst, suc, true, zero, ℕ,
  ◌*◌, ◌++◌, ◌+◌, ◌-◌, ◌<◌, ◌==◌, ◌^◌, ◌∙◌, ◌∷◌, ◌≡◌,
}
use crate.Net.Ipv4.{
  octet_loop, parse_octet, parse_octets, parse_ip, format_ip, octet, push_octet, leading_zero,
}

octet_loop_lem :
    (n : ℕ) (s : Text) → decimal_from n s < 256 → octet_loop n s ≡ some (decimal_from n s)
unfolding octet_loop
octet_loop_lem n [] h = refl
octet_loop_lem n (c ∷ s) h =
    ground (arith, octet_loop_lem (n * 10 + (c - 48)) s, decimal_from-ge (n * 10 + (c - 48)) s)

octet_loop_bound :
    (n : ℕ) (s : Text) (o : ℕ)
    → n < 256
    → octet_loop n s ≡ some o
    → (o < 256) × (o ≡ decimal_from n s)
unfolding octet_loop
octet_loop_bound n [] o h e = ground arith
octet_loop_bound n (c ∷ s) o h e = ground (arith, octet_loop_bound (n * 10 + (c - 48)) s o)

leading_zero-nonzero_head : (s : Text) → nonzero_head s ≡ true → leading_zero s ≡ false
leading_zero-nonzero_head [] h = refl
leading_zero-nonzero_head (c ∷ []) h = refl
leading_zero-nonzero_head (c ∷ d ∷ s) h = ground arith

leading_zero-decimal : (n : ℕ) → leading_zero (decimal n) ≡ false
leading_zero-decimal zero = rw decimal-zero
leading_zero-decimal (suc n) =
    leading_zero-nonzero_head (decimal (suc n)) (decimal-nonzero_head (suc n) (omega arith))

parse_octet-decimal : (o : ℕ) → o < 256 → parse_octet (decimal o) ≡ some o
unfolding parse_octet
parse_octet-decimal o h = ground (
  arith,
  is_empty-decimal o,
  length-decimal 2 o (omega arith),
  decimal-digits o,
  leading_zero-decimal o,
  octet_loop_lem 0 (decimal o),
  decimal_value-decimal o,
)

-- Digits with no leading zero: the number 0, or a positive number's text.
canonical :
    (s : Text)
    → is_empty s ≡ false
    → all is_digit s ≡ true
    → leading_zero s ≡ false
    → decimal (decimal_value s) ≡ s
canonical [] e d z = cc
canonical (c ∷ []) e d z =
    let value : 0 * 10 + (c - 48) ≡ c - 48 = omega arith in
    let back : 48 + (c - 48) ≡ c = ground arith in
    ap decimal value ∙ decimal_one (c - 48) (ground arith) ∙ ap (λ b. b ∷ []) back
canonical (c ∷ b ∷ s) e d z = decimal-decimal_value (c ∷ b ∷ s) d (ground arith)

decimal-parse_octet : (s : Text) (o : ℕ) → parse_octet s ≡ some o → (o < 256) × (decimal o ≡ s)
unfolding parse_octet
decimal-parse_octet s o h = ground (arith, octet_loop_bound 0 s o, canonical s)

split_on-format_ip :
    (a : ℕ)
    → split_on b'.' (format_ip a)
      ≡ decimal (octet 3 a) ∷ decimal (octet 2 a) ∷ decimal (octet 1 a) ∷ decimal (octet 0 a) ∷ []
unfolding format_ip
split_on-format_ip a =
    let no_dot = λ (n : ℕ). has-decimal b'.' n refl in
    split_on-append b'.' (decimal (octet 3 a)) _ (no_dot (octet 3 a))
    ∙ ap (◌∷◌ (decimal (octet 3 a))) (
        split_on-append b'.' (decimal (octet 2 a)) _ (no_dot (octet 2 a))
        ∙ ap (◌∷◌ (decimal (octet 2 a))) (
            split_on-append b'.' (decimal (octet 1 a)) _ (no_dot (octet 1 a))
            ∙ ap (◌∷◌ (decimal (octet 1 a)))
                (split_on-piece b'.' (decimal (octet 0 a)) (no_dot (octet 0 a)))))

parse_octets_four :
    (p3 p2 p1 p0 : Text) (o3 o2 o1 o0 : ℕ)
    → parse_octet p3 ≡ some o3
    → parse_octet p2 ≡ some o2
    → parse_octet p1 ≡ some o1
    → parse_octet p0 ≡ some o0
    → parse_octets 0 (p3 ∷ p2 ∷ p1 ∷ p0 ∷ [])
      ≡ ok (push_octet (push_octet (push_octet (push_octet 0 o3) o2) o1) o0)
unfolding parse_octets
parse_octets_four p3 p2 p1 p0 o3 o2 o1 o0 h3 h2 h1 h0 = rw (h3, parse_octets) (rw (h2, h1, h0))

parse_octets_cons :
    (acc a : ℕ) (p : Text) (ps : List Text)
    → parse_octets acc (p ∷ ps) ≡ ok a
    → (o : ℕ) × (parse_octet p ≡ some o) × (parse_octets (push_octet acc o) ps ≡ ok a)
unfolding parse_octets
parse_octets_cons acc a p ps h = elim (Option-cases (parse_octet p)) [
  | inl e ↦ ground arith
  | inr (o, e) ↦ (o, e, ground arith)
]

octet_value :
    (o3 o2 o1 o0 : ℕ)
    → o3 < 256
    → o2 < 256
    → o1 < 256
    → o0 < 256
    → let a = push_octet (push_octet (push_octet (push_octet 0 o3) o2) o1) o0 in
      (a < 2 ^ 32) × (octet 3 a ≡ o3) × (octet 2 a ≡ o2) × (octet 1 a ≡ o1) × (octet 0 a ≡ o0)
octet_value o3 o2 o1 o0 h3 h2 h1 h0 = omega arith

-- Every 32-bit address is read back from its text.
pub parse_ip-format_ip : (a : ℕ) → a < 2 ^ 32 → parse_ip (format_ip a) ≡ ok a
unfolding parse_ip
parse_ip-format_ip a h = rw (split_on-format_ip a) (
    parse_octets_four (decimal (octet 3 a)) (decimal (octet 2 a)) (decimal (octet 1 a))
      (decimal (octet 0 a)) (octet 3 a) (octet 2 a) (octet 1 a) (octet 0 a)
      (parse_octet-decimal (octet 3 a) (omega arith))
      (parse_octet-decimal (octet 2 a) (omega arith))
      (parse_octet-decimal (octet 1 a) (omega arith))
      (parse_octet-decimal (octet 0 a) (omega arith))
    ∙ ap ok (omega arith))

format_octets :
    (p3 p2 p1 p0 : Text) (o3 o2 o1 o0 : ℕ)
    → (o3 < 256) × (decimal o3 ≡ p3)
    → (o2 < 256) × (decimal o2 ≡ p2)
    → (o1 < 256) × (decimal o1 ≡ p1)
    → (o0 < 256) × (decimal o0 ≡ p0)
    → let a = push_octet (push_octet (push_octet (push_octet 0 o3) o2) o1) o0 in
      (a < 2 ^ 32) × (format_ip a ≡ p3 ++ b'.' ∷ (p2 ++ b'.' ∷ (p1 ++ b'.' ∷ p0)))
unfolding format_ip
format_octets p3 p2 p1 p0 o3 o2 o1 o0 h3 h2 h1 h0 =
    let (small, e3, e2, e1, e0) = octet_value o3 o2 o1 o0 h3.0 h2.0 h1.0 h0.0 in
    (small, rw (e3, e2, e1, e0) (rw (h3.1, h2.1, h1.1, h0.1)))

joined_octets :
    (a : ℕ) (parts : List Text)
    → (length parts == 4) ≡ true
    → parse_octets 0 parts ≡ ok a
    → (a < 2 ^ 32) × (format_ip a ≡ join b'.' parts)
unfolding format_ip parse_octets
joined_octets a [] l h = cc
joined_octets a (p3 ∷ []) l h = cc
joined_octets a (p3 ∷ p2 ∷ []) l h = cc
joined_octets a (p3 ∷ p2 ∷ p1 ∷ []) l h = cc
joined_octets a (p3 ∷ p2 ∷ p1 ∷ p0 ∷ []) l h =
    let (o3, e3, h3) = parse_octets_cons 0 a p3 (p2 ∷ p1 ∷ p0 ∷ []) h in
    let (o2, e2, h2) = parse_octets_cons _ a p2 (p1 ∷ p0 ∷ []) h3 in
    let (o1, e1, h1) = parse_octets_cons _ a p1 (p0 ∷ []) h2 in
    let (o0, e0, h0) = parse_octets_cons _ a p0 [] h1 in
    subst (λ (n : ℕ). (n < 2 ^ 32) × (format_ip n ≡ p3 ++ b'.' ∷ (p2 ++ b'.' ∷ (p1 ++ b'.' ∷ p0))))
      (ok_injective h0)
      (format_octets p3 p2 p1 p0 o3 o2 o1 o0 (decimal-parse_octet p3 o3 e3)
        (decimal-parse_octet p2 o2 e2) (decimal-parse_octet p1 o1 e1)
        (decimal-parse_octet p0 o0 e0))
joined_octets a (p3 ∷ p2 ∷ p1 ∷ p0 ∷ q ∷ ps) l h = ground arith

-- An accepted text is the only text of its address: no leading zeros, no fifth octet.
pub format_ip-parse_ip : (s : Text) (a : ℕ) → parse_ip s ≡ ok a → (a < 2 ^ 32) × (format_ip a ≡ s)
unfolding parse_ip
format_ip-parse_ip s a h = elim (Bool-cases (length (split_on b'.' s) == 4)) [
  | inl e ↦
      let (small, same) = joined_octets a (split_on b'.' s) e (ground arith) in
      (small, same ∙ join-split_on b'.' s)
  | inr e ↦ ground arith
]

-- An address has digits and dots only.
pub has-format_ip :
    (c a : ℕ) → is_digit c ≡ false → (b'.' == c) ≡ false → has c (format_ip a) ≡ false
unfolding format_ip
has-format_ip c a h k =
    let part = λ (n : ℕ). has-decimal c n h in
    let behind = λ (t : Text) (p : has c t ≡ false). dot-has c t k p in
    has-append c (decimal (octet 3 a)) _ (part (octet 3 a)) (
      behind _ (
        has-append c (decimal (octet 2 a)) _ (part (octet 2 a)) (
          behind _ (
            has-append c (decimal (octet 1 a)) _ (part (octet 1 a))
              (behind _ (part (octet 0 a)))))))
  where
    dot-has : (d : ℕ) (t : Text) → (b'.' == d) ≡ false → has d t ≡ false → has d (b'.' ∷ t) ≡ false
    dot-has d t q p = ground arith
