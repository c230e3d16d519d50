-- ===== src/Tests/Requests.antt =====
-- The theorems on the requests of the privileged plane at concrete requests, and runs of the checks.
use crate.Base.{
  all, codes, decimal_value, err, false, is_digit, is_empty, keep_if, none, ok, refl, some, true,
  ◌<◌, ◌^◌, ◌↔◌, ◌≡◌, ◌≢◌,
}
use crate.Privops.Verbs.{Verb}
use crate.Privops.Names.{parse_verb, verb_name, parse_verb_iff}
use crate.Privops.Fields.{
  is_shell_meta, validate_hostname, hyphen_label, empty_label, bad_hostname_char,
  validate_absolute_path, meta_path, dot_dot_path, validate_zfs_dataset, double_slash,
  validate_rule_text, meta_rule, many_lines, not_allowed_key, bad_value, not_key_value,
}
use crate.Privops.CreateJail.{CreateJailReq, validate_jail_parameters, validate_create_jail}
use crate.Privops.Numbers.{
  parse_unsigned_dec, validate_ipv4_cidr, bad_octet, prefix_range, validate_mac_address,
  multicast_mac, mixed_separator,
}
use crate.Privops.Numbers.Exact.{parse_unsigned_dec_iff}
use crate.Privops.CreateJail.Accepted.{IsLaunchable, validate_create_jail_iff}

parse_verb_iff_known : Verb.signal_jail ≢ Verb.unknown
parse_verb_iff_known e = cc

parse_verb_iff_example :
    (parse_verb (codes "signal_jail") ≡ Verb.signal_jail)
    ↔ (codes "signal_jail" ≡ verb_name Verb.signal_jail)
parse_verb_iff_example = parse_verb_iff (codes "signal_jail") Verb.signal_jail parse_verb_iff_known

abbrev web_jail : CreateJailReq
web_jail = record {
  name = codes "web_pid42";
  path = codes "/jails/1001/web";
  hostname = codes "web.local";
  vnet = true;
  parameters = codes "allow.raw_sockets=1  children.max=20\tsecurelevel=-1";
}

validate_create_jail_iff_example : (validate_create_jail web_jail ≡ ok tt) ↔ IsLaunchable web_jail
validate_create_jail_iff_example = validate_create_jail_iff web_jail

web_jail_passes : validate_create_jail web_jail ≡ ok tt
unfolding validate_create_jail
web_jail_passes = refl

host_hook :
    validate_jail_parameters (codes "allow.mount=1 exec.prestart=/bin/sh") ≡ err not_allowed_key
unfolding validate_jail_parameters
host_hook = refl

large_hostid : validate_jail_parameters (codes "host.hostid=4294967296") ≡ err bad_value
unfolding validate_jail_parameters
large_hostid = refl

bare_word : validate_jail_parameters (codes "persist") ≡ err not_key_value
unfolding validate_jail_parameters
bare_word = refl

hidden_hook : validate_jail_parameters (codes "allow.mount=1\nexec.start=x") ≡ err many_lines
unfolding validate_jail_parameters
hidden_hook = refl

uuid_parameter :
    validate_jail_parameters (codes "host.hostuuid=00000000-0000-4000-8000-00000000abCD") ≡ ok tt
unfolding validate_jail_parameters
uuid_parameter = refl

hyphened : validate_hostname (codes "a.b-.c") ≡ err hyphen_label
unfolding validate_hostname
hyphened = refl

final_dot : validate_hostname (codes "a.b.") ≡ err empty_label
unfolding validate_hostname
final_dot = refl

bad_byte_first : validate_hostname (codes "-a_") ≡ err bad_hostname_char
unfolding validate_hostname
bad_byte_first = refl

climbing : validate_absolute_path (codes "/jails/..") ≡ err dot_dot_path
unfolding validate_absolute_path
climbing = refl

dotted_name : validate_absolute_path (codes "/jails/..a/") ≡ ok tt
unfolding validate_absolute_path
dotted_name = refl

quoted : validate_absolute_path (codes "/jails/a'b") ≡ err meta_path
unfolding validate_absolute_path
quoted = refl

meta_bytes : keep_if is_shell_meta (codes "\\\"'a b\r\n*?") ≡ codes "\\\"'\r\n*?"
meta_bytes = refl

doubled : validate_zfs_dataset (codes "tank//a") ≡ err double_slash
unfolding validate_zfs_dataset
doubled = refl

escaped : validate_rule_text (codes "pass in \\") ≡ err meta_rule
unfolding validate_rule_text
escaped = refl

parse_unsigned_dec_iff_example :
    (parse_unsigned_dec (codes "18446744073709551615") ≡ some 18446744073709551615) ↔ (
      (is_empty (codes "18446744073709551615") ≡ false)
      × (all is_digit (codes "18446744073709551615") ≡ true)
      × (decimal_value (codes "18446744073709551615") ≡ 18446744073709551615)
      × (18446744073709551615 < 2 ^ 64))
parse_unsigned_dec_iff_example =
    parse_unsigned_dec_iff (codes "18446744073709551615") 18446744073709551615

overflowing : parse_unsigned_dec (codes "18446744073709551616") ≡ none
unfolding parse_unsigned_dec
overflowing = refl

octal_octet : validate_ipv4_cidr (codes "10.0.01.1/24") ≡ err bad_octet
unfolding validate_ipv4_cidr
octal_octet = refl

wide_prefix : validate_ipv4_cidr (codes "10.0.0.1/33") ≡ err prefix_range
unfolding validate_ipv4_cidr
wide_prefix = refl

good_cidr : validate_ipv4_cidr (codes "10.0.0.1/024") ≡ ok tt
unfolding validate_ipv4_cidr
good_cidr = refl

good_mac : validate_mac_address (codes "58-9c-FC-00-01-02") ≡ ok tt
unfolding validate_mac_address
good_mac = refl

multicast : validate_mac_address (codes "0b:9c:fc:00:01:02") ≡ err multicast_mac
unfolding validate_mac_address
multicast = refl

mixed_mac : validate_mac_address (codes "58:9c-fc:00:01:02") ≡ err mixed_separator
unfolding validate_mac_address
mixed_mac = refl
