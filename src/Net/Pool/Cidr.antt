-- ===== src/Net/Pool/Cidr.antt =====
-- What `parseCidr` accepts.
use native.Mathlib.Nat.{mul-le-mul_right}
use crate.Base.{
  ==_iff, Option-cases, Result-cases, Text, [], all, ap, arith, cut_at, cut_at-append, cut_at_sound,
  dec_lt, decimal_from, decimal_from-ge, decimal_value, false, inl, inr, is_digit, is_empty, ltb,
  ok, refl, some, subst, sym, true, ℕ, ◌*◌, ◌++◌, ◌+◌, ◌-◌, ◌/◌, ◌<◌, ◌^◌, ◌↔◌, ◌∙◌, ◌∷◌, ◌≡◌, ◌≤◌,
}
use crate.Net.Ipv4.{parse_ip, format_ip}
use crate.Net.Ipv4.RoundTrip.{has-format_ip, parse_ip-format_ip, format_ip-parse_ip}
use crate.Net.Pool.{Network, block, is_aligned, prefix_loop, cidr_parts, parse_cidr}
use crate.Net.Pool.Allocation.{IsValid, block_facts}

prefix_loop_lem :
    (n : ℕ) (s : Text) → decimal_from n s < 33 → prefix_loop n s ≡ ok (decimal_from n s)
unfolding prefix_loop
prefix_loop_lem n [] h = refl
prefix_loop_lem n (c ∷ s) h =
    ground (arith, prefix_loop_lem (n * 10 + (c - 48)) s, decimal_from-ge (n * 10 + (c - 48)) s)

prefix_loop_value : (n : ℕ) (s : Text) (p : ℕ) → prefix_loop n s ≡ ok p → p ≡ decimal_from n s
unfolding prefix_loop
prefix_loop_value n [] p e = ground arith
prefix_loop_value n (c ∷ s) p e = ground (arith, prefix_loop_value (n * 10 + (c - 48)) s p)

-- A multiple of the block size below 2 ^ 32 has the whole block below 2 ^ 32.
block_fits : (q b m base : ℕ) → b * m ≡ 2 ^ 32 → q * b ≡ base → base < 2 ^ 32 → base + b ≤ 2 ^ 32
block_fits q b m base whole start small = elim (dec_lt q m) [
  | yes h ↦ omega (arith, mul-le-mul_right b h)
  | no h ↦ let k : m ≤ q = omega arith in absurd (omega (arith, mul-le-mul_right b k))
]

-- The checks that `parseCidr` makes on the two sides of the slash, and what they establish.
abbrev pub Accepted : Text → Text → Network → Type 0
Accepted ip_part pre_part n =
    IsValid n
    × (format_ip n.base ≡ ip_part)
    × (all is_digit pre_part ≡ true)
    × (is_empty pre_part ≡ false)
    × (decimal_value pre_part ≡ n.prefix_len)

cidr_parts_checks :
    (ip_part pre_part : Text) (n : Network)
    → cidr_parts ip_part pre_part ≡ ok n
    → (prefix_loop 0 pre_part ≡ ok n.prefix_len)
      × (parse_ip ip_part ≡ ok n.base)
      × (is_empty pre_part ≡ false)
      × (all is_digit pre_part ≡ true)
      × (1 ≤ n.prefix_len)
      × (n.prefix_len ≤ 30)
      × (is_aligned n.prefix_len n.base ≡ true)
unfolding cidr_parts
cidr_parts_checks ip_part pre_part n h = elim (Result-cases (prefix_loop 0 pre_part)) [
  | inl (e, bad) ↦ ground arith
  | inr (p, good) ↦ elim (Result-cases (parse_ip ip_part)) [
    | inl (e, bad) ↦ ground arith
    | inr (a, parsed) ↦ ground arith
  ]
]

cidr_parts_sound :
    (ip_part pre_part : Text) (n : Network)
    → cidr_parts ip_part pre_part ≡ ok n
    → Accepted ip_part pre_part n
cidr_parts_sound ip_part pre_part n h =
    let (loop, parsed, full, digits, low, high, even) = cidr_parts_checks ip_part pre_part n h in
    let (small, text) = format_ip-parse_ip ip_part n.base parsed in
    let (big, whole) = block_facts n.prefix_len high in
    let even' = (==_iff _ _).0 even in
    let valid : IsValid n = record {
      prefix_low = low;
      prefix_high = high;
      aligned = even';
      in_range =
          block_fits (n.base / block n.prefix_len) (block n.prefix_len) (2 ^ n.prefix_len) n.base
            whole even' small;
    } in
    (valid, text, digits, full, sym (prefix_loop_value 0 pre_part n.prefix_len loop))

cidr_parts_complete :
    (ip_part pre_part : Text) (n : Network)
    → Accepted ip_part pre_part n
    → cidr_parts ip_part pre_part ≡ ok n
unfolding cidr_parts
cidr_parts_complete ip_part pre_part n (v, text, digits, full, value) =
    let facts = block_facts n.prefix_len v.prefix_high in
    let loop : prefix_loop 0 pre_part ≡ ok n.prefix_len =
      prefix_loop_lem 0 pre_part (omega (arith, v.prefix_high, value)) ∙ ap ok value in
    let parsed : parse_ip ip_part ≡ ok n.base =
      subst (λ t. parse_ip t ≡ ok n.base) text
        (parse_ip-format_ip n.base (omega (arith, facts.0, v.in_range))) in
    let even : is_aligned n.prefix_len n.base ≡ true = (==_iff _ _).1 v.aligned in
    let low : ltb n.prefix_len 1 ≡ false = ground (arith, v.prefix_low) in
    let high : ltb 30 n.prefix_len ≡ false = ground (arith, v.prefix_high) in
    simp (full, digits, loop, low, high, parsed, even)

-- The text is an aligned network address, a slash and decimal digits whose value is the prefix.
abbrev pub IsCidr : Text → Network → Type 0
IsCidr cidr n =
    IsValid n
    × ((digits : Text) × (cidr ≡ format_ip n.base ++ b'/' ∷ digits)
        × (all is_digit digits ≡ true)
        × (is_empty digits ≡ false)
        × (decimal_value digits ≡ n.prefix_len))

parse_cidr_sound : (cidr : Text) (n : Network) → parse_cidr cidr ≡ ok n → IsCidr cidr n
unfolding parse_cidr
parse_cidr_sound cidr n h = elim (Option-cases (cut_at b'/' cidr)) [
  | inl e ↦ ground arith
  | inr (parts, e) ↦
      let (v, text, digits, full, value) = cidr_parts_sound parts.0 parts.1 n (ground arith) in
      let (same, _) = cut_at_sound b'/' cidr parts.0 parts.1 e in
      (v, (parts.1, same ∙ ap (λ t. t ++ b'/' ∷ parts.1) (sym text), digits, full, value))
]

parse_cidr_complete : (cidr : Text) (n : Network) → IsCidr cidr n → parse_cidr cidr ≡ ok n
unfolding parse_cidr
parse_cidr_complete cidr n (v, (digits, same, numeric, full, value)) =
    let cut : cut_at b'/' cidr ≡ some (format_ip n.base, digits) =
      ap (cut_at b'/') same
      ∙ cut_at-append b'/' (format_ip n.base) digits (has-format_ip b'/' n.base refl refl) in
    rw (cut, parse_cidr)
      (cidr_parts_complete (format_ip n.base) digits n (v, refl, numeric, full, value))

-- `parseCidr` returns a network exactly for its spellings.
pub parse_cidr_iff : (cidr : Text) (n : Network) → (parse_cidr cidr ≡ ok n) ↔ IsCidr cidr n
parse_cidr_iff cidr n = (parse_cidr_sound cidr n, parse_cidr_complete cidr n)
