-- ===== src/Net/Pool.antt =====
-- The pool that addresses are leased from: `Network`, `parseCidr`, `gatewayFor`, `broadcastFor` and
-- `allocateNext` of lib/ip_alloc_pure.{h,cpp}. A mask of the form 2 ^ k - 1 is written by division
-- and remainder; a pool that `parseCidr` accepts has a prefix length from 1 to 30, so k is 2 to 31.
pub mod Cidr
pub mod Allocation
use crate.Base.{
  Bool, List, Result, Text, [], all, any, codes, cut_at, err, fail_if, if◌then◌else◌, is_digit,
  is_empty, ltb, none, not, ok, refl, some, suc, wrap_err, zero, ℕ, ◌%◌, ◌*◌, ◌+◌, ◌-◌, ◌/◌, ◌==◌,
  ◌>>=◌, ◌>>◌, ◌^◌, ◌||◌, ◌∷◌, ◌≡◌,
}
use crate.Net.Ipv4.{IpError, parse_ip, parse_octets, parse_octet}

pub record Network : Type 0 where
  pub base : ℕ
  pub prefix_len : ℕ

pub data CidrError : Type 0 where
  missing_slash prefix_empty prefix_not_numeric prefix_out_of_range prefix_unsupported : CidrError
  bad_address : IpError → CidrError
  not_aligned : Text → ℕ → CidrError

-- The loop `n = n * 10 + (uint32_t)(c - '0'); if (n > 32) return …;`.
unfoldable pub prefix_loop : ℕ → Text → Result CidrError ℕ
prefix_loop n [] = ok n
prefix_loop n (c ∷ s) =
    let n' = n * 10 + (c - 48) in
    let rest = prefix_loop n' s in if ltb 32 n' then err prefix_out_of_range else rest

-- The number of addresses of a network, 1u << (32 - prefix).
abbrev pub block : ℕ → ℕ
block prefix = 2 ^ (32 - prefix)

-- `(addr & mask) == addr` for the mask `~((1u << (32 - prefix)) - 1u)`.
abbrev pub is_aligned : ℕ → ℕ → Bool
is_aligned prefix addr = addr / block prefix * block prefix == addr

unfoldable pub cidr_parts : Text → Text → Result CidrError Network
unfolding prefix_loop
cidr_parts ip_part pre_part = do
  fail_if (is_empty pre_part) prefix_empty
  fail_if (not (all is_digit pre_part)) prefix_not_numeric
  prefix ← prefix_loop 0 pre_part
  fail_if (ltb prefix 1 || ltb 30 prefix) prefix_unsupported
  addr ← wrap_err bad_address (parse_ip ip_part)
  fail_if (not (is_aligned prefix addr)) (not_aligned ip_part prefix)
  ok (record { base = addr; prefix_len = prefix })

unfoldable pub parse_cidr : Text → Result CidrError Network
unfolding cidr_parts
parse_cidr cidr = elim (cut_at b'/' cidr) [
  | none ↦ err missing_slash
  | some (ip_part, pre_part) ↦ cidr_parts ip_part pre_part
]

unfoldable pub gateway_for : Network → ℕ
gateway_for n = (n.base + 1) % 2 ^ 32

-- `n.base | hostMask`: the low bits are all set.
unfoldable pub broadcast_for : Network → ℕ
broadcast_for n =
    let host_mask = if n.prefix_len == 32 then 0 else block n.prefix_len - 1 in
    n.base / (host_mask + 1) * (host_mask + 1) + host_mask

-- `takenSet.count(a)`.
abbrev pub is_taken : List ℕ → ℕ → Bool
is_taken taken a = any (λ b. b == a) taken

-- The loop `for (uint32_t a = …; a < bcast; a++)` with the number of rounds that are left.
unfoldable pub scan : ℕ → List ℕ → ℕ → ℕ → ℕ
scan gw taken zero a = 0
scan gw taken (suc rounds) a =
    let rest = scan gw taken rounds (a + 1) in
    if a == gw then rest else if is_taken taken a then rest else a

unfoldable pub allocate_next : Network → List ℕ → ℕ
allocate_next pool taken =
    let first = (pool.base + 2) % 2 ^ 32 in
    scan (gateway_for pool) taken (broadcast_for pool - first) first

home_network : Network
home_network = record { base = 3232235776; prefix_len = 24 }

home_cidr : parse_cidr (codes "192.168.1.0/24") ≡ ok home_network
unfolding parse_cidr home_network parse_ip parse_octets parse_octet
home_cidr = refl

skips_the_taken : allocate_next home_network (3232235778 ∷ 3232235780 ∷ []) ≡ 3232235779
unfolding allocate_next scan gateway_for broadcast_for home_network
skips_the_taken = refl
