-- ===== src/Stack/Inject.antt =====
-- What `stack up` puts into the specification of a member: lib/stack_pure.cpp. The tests of
-- `inet_pton`, from libc, are parameters.
pub mod Hosts
use crate.Base.{
  Bool, List, Option, Result, Text, [], all, any, codes, cut_at, decimal_value, drop, err, fail_if,
  false, has, head_or, if◌then◌else◌, is_alnum, is_digit, is_empty, last_or, leb, length, ltb, none,
  not, ok, some, starts_with, text_eq, wrap_err, ℕ, ◌&&◌, ◌++◌, ◌-◌, ◌==◌, ◌>>=◌, ◌>>◌, ◌||◌, ◌∷◌,
}
use crate.Net.LeaseLine.{k_jail_name}

pub data NameError : Type 0 where
  empty_name too_long reserved_name leading_dash bad_name_char : NameError

abbrev pub is_name_char : ℕ → Bool
is_name_char c = is_alnum c || (c == b'.' || (c == b'_' || c == b'-'))

unfoldable pub validate_stack_name : Text → Result NameError (Unit {0})
validate_stack_name name = do
  fail_if (is_empty name) empty_name
  fail_if (ltb k_jail_name (length name)) too_long
  fail_if (text_eq name (codes ".") || text_eq name (codes "..")) reserved_name
  fail_if (head_or 0 name == b'-') leading_dash
  fail_if (not (all is_name_char name)) bad_name_char

pub data AddrError : Type 0 where
  empty_addr bad_addr_char no_literal malformed_prefix prefix_not_numeric prefix_range : AddrError

abbrev pub is_addr_char : ℕ → Bool
is_addr_char c =
    is_digit c
    || ((leb b'a' c && leb c b'f')
        || ((leb b'A' c && leb c b'F') || (c == b'.' || (c == b':' || c == b'/'))))

-- The address part, up to the first slash.
unfoldable pub ip_from_cidr : Text → Text
ip_from_cidr cidr = elim (cut_at b'/' cidr) [ none ↦ cidr | some (a, _) ↦ a ]

abbrev pub check_prefix : ℕ → Option (Text × Text) → Result AddrError (Unit {0})
check_prefix max_prefix none = ok tt
check_prefix max_prefix (some (_, suffix)) = do
  fail_if (is_empty suffix || ltb 3 (length suffix)) malformed_prefix
  fail_if (not (all is_digit suffix)) prefix_not_numeric
  fail_if (ltb max_prefix (decimal_value suffix)) prefix_range

-- `ss << kv.second << " " << kv.first << "\n"` for each entry of the map.
unfoldable pub build_hosts_entries : List (Text × Text) → Text
build_hosts_entries [] = []
build_hosts_entries ((name, ip) ∷ m) = ip ++ (32 ∷ (name ++ (10 ∷ build_hosts_entries m)))

pub data HostsError : Type 0 where
  bad_container : Text → NameError → HostsError
  bad_address : Text → AddrError → HostsError

abbrev pub script_open : Text
script_open = codes "printf '\\n# crate stack containers\\n"

abbrev pub script_close : Text
script_close = codes "' >> /etc/hosts"

module _ (inet_pton4 inet_pton6 : Text → Bool) where
  unfoldable pub max_prefix_of : Text → Result AddrError ℕ
  max_prefix_of bare =
      if inet_pton4 bare then ok 32 else if inet_pton6 bare then ok 128 else err no_literal

  unfoldable pub validate_stack_ip : Text → Result AddrError (Unit {0})
  unfolding max_prefix_of ip_from_cidr
  validate_stack_ip ip = do
    fail_if (is_empty ip) empty_addr
    fail_if (not (all is_addr_char ip)) bad_addr_char
    max_prefix ← max_prefix_of (ip_from_cidr ip)
    check_prefix max_prefix (cut_at b'/' ip)

  -- The loop over the map.
  unfoldable pub host_lines : List (Text × Text) → Result HostsError Text
  unfolding validate_stack_name validate_stack_ip
  host_lines [] = ok []
  host_lines ((name, ip) ∷ m) = do
    wrap_err (bad_container name) (validate_stack_name name)
    wrap_err (bad_address name) (validate_stack_ip ip)
    rest ← host_lines m
    ok (ip ++ (32 ∷ (name ++ (codes "\\n" ++ rest))))

  unfoldable pub hosts_command : List (Text × Text) → Result HostsError Text
  unfolding host_lines
  hosts_command [] = ok []
  hosts_command (kv ∷ m) = do
    lines ← host_lines (kv ∷ m)
    ok (script_open ++ (lines ++ script_close))

  unfoldable pub dns_command : Text → Result AddrError Text
  unfolding validate_stack_ip
  dns_command gateway = do
    validate_stack_ip gateway
    ok (codes "printf 'nameserver " ++ (gateway ++ codes "\\n' > /etc/resolv.conf"))

-- The suffix of the first subnet that has a prefix length.
unfoldable pub first_prefix : List Text → Text
first_prefix [] = codes "/24"
first_prefix (s ∷ ss) =
    let rest = first_prefix ss in
    elim (cut_at b'/' s) [
      | none ↦ rest
      | some (_, suffix) ↦ if is_empty suffix then rest else b'/' ∷ suffix
    ]

unfoldable pub pool_cidr : Text → List Text → Text
unfolding first_prefix
pool_cidr ip subnets = ip ++ first_prefix subnets

unfoldable pub pool_eligible : Text → Text → Text → Bool → Bool
pool_eligible mode member_bridge network_bridge own_ip =
    if own_ip
    then false
    else if not (text_eq mode (codes "bridge")) && not (text_eq mode (codes "auto"))
    then false
    else not (is_empty member_bridge) && text_eq member_bridge network_bridge

-- The lambdas `add`, `under` and `endsWith`.
unfoldable pub add_once : List Text → Text → List Text
add_once out p = if is_empty p || any (text_eq p) out then out else out ++ p ∷ []

abbrev pub under : Text → Text → Text
under dir rel =
    if is_empty dir then rel else if last_or 0 dir == b'/' then dir ++ rel else dir ++ b'/' ∷ rel

abbrev pub ends_with : Text → Text → Bool
ends_with s name = leb (length s) (length name) && text_eq (drop (length name - length s) name) s

abbrev pub is_path_like : Text → Bool
is_path_like name =
    has b'/' name || (ends_with (codes ".yml") name || ends_with (codes ".yaml") name)

unfoldable pub template_candidates : Text → Text → Text → List Text
unfolding add_once
template_candidates name stack_dir home =
    if is_empty name
    then []
    else if is_path_like name
    then (if head_or 0 name == b'/'
        then add_once [] name
        else add_once (add_once [] (under stack_dir name)) name)
    else (let file = name ++ codes ".yml" in
        let own =
          if is_empty home
          then []
          else add_once [] (under home (codes ".config/crate/templates/" ++ file)) in
        let shared = add_once own (codes "/usr/local/share/crate/templates/" ++ file) in
        add_once shared (under stack_dir file))

unfoldable pub jail_name_matches_container : Text → Text → Bool
jail_name_matches_container jail_name container =
    let prefix = container ++ codes "_pid" in
    if is_empty container
    then false
    else if leb (length jail_name) (length prefix)
    then false
    else starts_with prefix jail_name && all is_digit (drop (length prefix) jail_name)
