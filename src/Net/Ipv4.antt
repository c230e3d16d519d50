-- ===== src/Net/Ipv4.antt =====
-- Dotted IPv4 addresses: `parseOctet`, `parseIp` and `formatIp` of lib/ip_alloc_pure.cpp.
-- A text is its list of bytes, a `uint32_t` a number below 2 ^ 32.
pub mod RoundTrip
use crate.Base.{
  Bool, List, Option, Result, Text, [], all, codes, decimal, err, false, if◌then◌else◌, is_digit,
  is_empty, length, ltb, none, not, ok, refl, some, split_on, ℕ, ◌%◌, ◌*◌, ◌++◌, ◌+◌, ◌-◌, ◌/◌,
  ◌==◌, ◌^◌, ◌||◌, ◌∷◌, ◌≡◌,
}

pub data IpError : Type 0 where
  not_four_octets : IpError
  invalid_octet : Text → IpError

-- The loop `n = n * 10 + (c - '0'); if (n > 255) return false;`.
unfoldable pub octet_loop : ℕ → Text → Option ℕ
octet_loop n [] = some n
octet_loop n (c ∷ s) =
    let n' = n * 10 + (c - 48) in let rest = octet_loop n' s in if ltb 255 n' then none else rest

abbrev pub leading_zero : Text → Bool
leading_zero [] = false
leading_zero (c ∷ []) = false
leading_zero (c ∷ d ∷ s) = c == 48

unfoldable pub parse_octet : Text → Option ℕ
unfolding octet_loop
parse_octet s =
    if is_empty s || ltb 3 (length s)
    then none
    else if not (all is_digit s)
    then none
    else if leading_zero s
    then none
    else octet_loop 0 s

-- `addr = (addr << 8) | o` for an octet.
abbrev pub push_octet : ℕ → ℕ → ℕ
push_octet addr o = addr * 256 % 2 ^ 32 + o

unfoldable pub parse_octets : ℕ → List Text → Result IpError ℕ
parse_octets addr [] = ok addr
parse_octets addr (p ∷ ps) = elim (parse_octet p) [
  | none ↦ err (invalid_octet p)
  | some o ↦ parse_octets (push_octet addr o) ps
]

unfoldable pub parse_ip : Text → Result IpError ℕ
parse_ip s =
    let parts = split_on b'.' s in
    if length parts == 4 then parse_octets 0 parts else err not_four_octets

-- `(addr >> shift) & 0xff` for the four octets.
abbrev pub octet : ℕ → ℕ → ℕ
octet k addr = addr / 256 ^ k % 256

unfoldable pub format_ip : ℕ → Text
format_ip addr =
    decimal (octet 3 addr)
    ++ (b'.'
        ∷ (decimal (octet 2 addr)
            ++ (b'.' ∷ (decimal (octet 1 addr) ++ (b'.' ∷ decimal (octet 0 addr))))))

home_address : parse_ip (codes "192.168.1.50") ≡ ok 3232235826
unfolding parse_ip parse_octets parse_octet
home_address = refl

padded_octet : parse_ip (codes "10.0.0.01") ≡ err (invalid_octet (codes "01"))
unfolding parse_ip parse_octets parse_octet
padded_octet = refl

home_text : format_ip 3232235826 ≡ codes "192.168.1.50"
unfolding format_ip decimal
home_text = refl
