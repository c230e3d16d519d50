-- ===== src/Tests/Net.antt =====
-- The theorems on addresses, pools and lease lines at concrete inputs.
use crate.Base.{[], arith, codes, ok, refl, ◌+◌, ◌-◌, ◌<◌, ◌^◌, ◌↔◌, ◌∷◌, ◌≡◌}
use crate.Net.Ipv4.{parse_ip, parse_octets, parse_octet, format_ip}
use crate.Net.Ipv4.RoundTrip.{parse_ip-format_ip, format_ip-parse_ip}
use crate.Net.Pool.{Network, parse_cidr, allocate_next, block}
use crate.Net.Pool.Allocation.{IsValid, FirstFree, allocate_next-FirstFree}
use crate.Net.Pool.Cidr.{IsCidr, parse_cidr_iff}
use crate.Net.LeaseLine.{Lease, IsLease, parse_lease_line, format_lease_line, parse_lease_line_iff}

abbrev small_pool : Network
small_pool = record { base = 167772160; prefix_len = 29 }

parse_ip-format_ip_example : parse_ip (format_ip 3232235826) ≡ ok 3232235826
parse_ip-format_ip_example = parse_ip-format_ip 3232235826 (omega arith)

format_ip_parse_ip_parsed : parse_ip (codes "192.168.1.50") ≡ ok 3232235826
unfolding parse_ip parse_octets parse_octet
format_ip_parse_ip_parsed = refl

format_ip-parse_ip_example : (3232235826 < 2 ^ 32) × (format_ip 3232235826 ≡ codes "192.168.1.50")
format_ip-parse_ip_example =
    format_ip-parse_ip (codes "192.168.1.50") 3232235826 format_ip_parse_ip_parsed

parse_cidr_iff_example :
    (parse_cidr (codes "10.0.0.0/29") ≡ ok small_pool) ↔ IsCidr (codes "10.0.0.0/29") small_pool
parse_cidr_iff_example = parse_cidr_iff (codes "10.0.0.0/29") small_pool

small_pool-IsValid : IsValid small_pool
small_pool-IsValid = record {
  prefix_low = omega arith;
  prefix_high = omega arith;
  aligned = refl;
  in_range = omega arith;
}

allocate_next-FirstFree_example :
    FirstFree
      (167772162 ∷ 167772163 ∷ [])
      (small_pool.base + 2)
      (small_pool.base + block small_pool.prefix_len - 1)
      (allocate_next small_pool (167772162 ∷ 167772163 ∷ []))
allocate_next-FirstFree_example =
    allocate_next-FirstFree small_pool small_pool-IsValid (167772162 ∷ 167772163 ∷ [])

abbrev web_lease : Lease
web_lease = record { name = codes "web"; ip = 167772162 }

parse_lease_line_iff_example :
    (parse_lease_line (codes "web 10.0.0.2") ≡ ok web_lease)
    ↔ (IsLease web_lease × (codes "web 10.0.0.2" ≡ format_lease_line web_lease))
parse_lease_line_iff_example = parse_lease_line_iff (codes "web 10.0.0.2") web_lease
