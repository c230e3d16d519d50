-- ===== src/Net/LeaseLine.antt =====
-- A line of the lease file: `Lease`, `nameLooksValid`, `parseLeaseLine` and `formatLeaseLine` of
-- lib/ip_alloc_pure.{h,cpp}, with the limits of lib/name_limits.h.
use crate.Base.{
  &&_elim, Bool, Option-cases, Result, Result-cases, Text, [], all, any, ap₂, arith, cut_at,
  cut_at-append, cut_at_sound, err, fail_if, false, has, if◌then◌else◌, inl, inr, is_alnum,
  is_empty, length, ltb, none, not, ok, refl, some, subst, sym, true, wrap_err, ℕ, ◌&&◌, ◌++◌, ◌+◌,
  ◌<◌, ◌==◌, ◌>>=◌, ◌>>◌, ◌^◌, ◌||◌, ◌↔◌, ◌∙◌, ◌∷◌, ◌≡◌,
}
use crate.Net.Ipv4.{IpError, parse_ip, format_ip}
use crate.Net.Ipv4.RoundTrip.{parse_ip-format_ip, format_ip-parse_ip, has-format_ip}

abbrev pub k_jail_name : ℕ
k_jail_name = 128

abbrev k_run_hex_chars : ℕ
k_run_hex_chars = 8

abbrev pub k_lease_name : ℕ
k_lease_name = 5 + k_jail_name + 1 + k_run_hex_chars

pub record Lease : Type 0 where
  pub name : Text
  pub ip : ℕ

pub data LeaseError : Type 0 where
  line_empty missing_space name_whitespace ip_whitespace : LeaseError
  invalid_name : Text → LeaseError
  lease_ip : IpError → LeaseError

-- `find_first_of(" \t\r\n") != npos`.
abbrev pub is_space : ℕ → Bool
is_space c = c == 32 || (c == 9 || (c == 13 || c == 10))

abbrev pub name_char : ℕ → Bool
name_char c = is_alnum c || (c == b'.' || (c == b'_' || c == b'-'))

abbrev pub name_looks_valid : Text → Bool
name_looks_valid n = not (is_empty n || ltb k_lease_name (length n)) && all name_char n

lease_parts : Text → Text → Result LeaseError Lease
lease_parts name ip = do
  fail_if (any is_space name) name_whitespace
  fail_if (any is_space ip) ip_whitespace
  fail_if (not (name_looks_valid name)) (invalid_name name)
  addr ← wrap_err lease_ip (parse_ip ip)
  ok (record { name = name; ip = addr })

pub parse_lease_line : Text → Result LeaseError Lease
unfolding lease_parts
parse_lease_line line =
    if is_empty line
    then err line_empty
    else elim (cut_at 32 line) [ none ↦ err missing_space | some (name, ip) ↦ lease_parts name ip ]

pub format_lease_line : Lease → Text
format_lease_line l = l.name ++ 32 ∷ format_ip l.ip

-- What the daemon may write: a valid name and a 32-bit address.
abbrev pub IsLease : Lease → Type 0
IsLease l = (name_looks_valid l.name ≡ true) × (l.ip < 2 ^ 32)

name_no_space : (n : Text) → all name_char n ≡ true → any is_space n ≡ false
name_no_space [] h = refl
name_no_space (c ∷ n) h = ground (arith, name_no_space n)

no_space :
    (s : Text)
    → has 32 s ≡ false
    → has 9 s ≡ false
    → has 13 s ≡ false
    → has 10 s ≡ false
    → any is_space s ≡ false
no_space [] h32 h9 h13 h10 = refl
no_space (c ∷ s) h32 h9 h13 h10 = ground (arith, no_space s)

ip_no_space : (a : ℕ) → any is_space (format_ip a) ≡ false
ip_no_space a =
    no_space (format_ip a) (has-format_ip 32 a refl refl) (has-format_ip 9 a refl refl)
      (has-format_ip 13 a refl refl) (has-format_ip 10 a refl refl)

has-name : (n : Text) → all name_char n ≡ true → has 32 n ≡ false
has-name [] h = refl
has-name (c ∷ n) h = ground (arith, has-name n)

lease_parts_sound :
    (name ip : Text) (l : Lease)
    → lease_parts name ip ≡ ok l
    → IsLease l × (name ≡ l.name) × (ip ≡ format_ip l.ip)
unfolding lease_parts
lease_parts_sound name ip l h = elim (Result-cases (parse_ip ip)) [
  | inl (e, bad) ↦ ground arith
  | inr (a, parsed) ↦ ground (arith, format_ip-parse_ip ip a)
]

lease_parts_complete : (l : Lease) → IsLease l → lease_parts l.name (format_ip l.ip) ≡ ok l
unfolding lease_parts
lease_parts_complete l (valid, small) =
    let chars = (&&_elim _ _ valid).1 in
    simp (name_no_space l.name chars, ip_no_space l.ip, valid, parse_ip-format_ip l.ip small)

cut-format_lease_line :
    (l : Lease) → IsLease l → cut_at 32 (format_lease_line l) ≡ some (l.name, format_ip l.ip)
unfolding format_lease_line
cut-format_lease_line l (valid, small) =
    cut_at-append 32 l.name (format_ip l.ip) (has-name l.name (&&_elim _ _ valid).1)

not_empty : (s t : Text) → is_empty (s ++ 32 ∷ t) ≡ false
not_empty [] t = refl
not_empty (c ∷ s) t = refl

parse_lease_line_sound :
    (line : Text) (l : Lease)
    → parse_lease_line line ≡ ok l
    → IsLease l × (line ≡ format_lease_line l)
unfolding parse_lease_line format_lease_line
parse_lease_line_sound line l h = elim (Option-cases (cut_at 32 line)) [
  | inl e ↦ ground arith
  | inr (parts, e) ↦
      let (valid, name, ip) = lease_parts_sound parts.0 parts.1 l (ground arith) in
      let (same, _) = cut_at_sound 32 line parts.0 parts.1 e in
      (valid, same ∙ ap₂ (λ a b. a ++ 32 ∷ b) name ip)
]

parse_lease_line-format : (l : Lease) → IsLease l → parse_lease_line (format_lease_line l) ≡ ok l
unfolding parse_lease_line
parse_lease_line-format l valid =
    let full : is_empty (format_lease_line l) ≡ false =
      unfold format_lease_line in not_empty l.name (format_ip l.ip) in
    rw (cut-format_lease_line l valid, parse_lease_line) (rw full (lease_parts_complete l valid))

-- `parseLeaseLine` returns a lease exactly for the line that `formatLeaseLine` writes for it, and
-- only leases with a valid name and a 32-bit address.
pub parse_lease_line_iff :
    (line : Text) (l : Lease)
    → (parse_lease_line line ≡ ok l) ↔ (IsLease l × (line ≡ format_lease_line l))
parse_lease_line_iff line l = (
  parse_lease_line_sound line l,
  λ h. subst (λ t. parse_lease_line t ≡ ok l) (sym h.1) (parse_lease_line-format l h.0),
)
