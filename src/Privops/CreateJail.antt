-- ===== src/Privops/CreateJail.antt =====
-- The request `create_jail` and the list of jail(8) parameters it may carry: lib/privops_pure.cpp.
pub mod Language
pub mod Values
pub mod Params
pub mod Tokens
pub mod Accepted
use crate.Base.{
  Bool, List, Option, Text, [], add_front, all, any, codes, cut_at, decimal_value, err, fail_if,
  false, if◌then◌else◌, is_digit, is_empty, keep_if, leb, length, ltb, none, not, ok, some, suc,
  text_eq, true, ℕ, ◌&&◌, ◌==◌, ◌>>=◌, ◌>>◌, ◌||◌, ◌∷◌,
}
use crate.Privops.Fields.{
  Check, long_parameters, not_key_value, not_allowed_key, bad_value, validate_jail_name,
  validate_absolute_path, validate_hostname, validate_rule_text,
}
use crate.Net.Syntax.{is_hex}

pub data ParamKind : Type 0 where
  flag enforce_statfs securelevel unsigned uint32 uuid : ParamKind

abbrev pub k_jail_param_whitelist : List (Text × ParamKind)
k_jail_param_whitelist =
    (codes "allow.raw_sockets", flag)
    ∷ (codes "allow.socket_af", flag)
    ∷ (codes "allow.sysvipc", flag)
    ∷ (codes "allow.mount", flag)
    ∷ (codes "allow.mount.zfs", flag)
    ∷ (codes "allow.quotas", flag)
    ∷ (codes "allow.set_hostname", flag)
    ∷ (codes "allow.chflags", flag)
    ∷ (codes "allow.mlock", flag)
    ∷ (codes "enforce_statfs", enforce_statfs)
    ∷ (codes "securelevel", securelevel)
    ∷ (codes "children.max", unsigned)
    ∷ (codes "host.hostuuid", uuid)
    ∷ (codes "host.hostid", uint32)
    ∷ []

abbrev pub all_digits : Text → Bool
all_digits s = not (is_empty s) && all is_digit s

abbrev pub is_dash_place : ℕ → Bool
is_dash_place i = i == 8 || (i == 13 || (i == 18 || i == 23))

-- The loop from position `i` on.
abbrev pub uuid_from : ℕ → Text → Bool
uuid_from i [] = true
uuid_from i (c ∷ v) =
    let rest = uuid_from (suc i) v in
    if is_dash_place i then c == b'-' && rest else is_hex c && rest

abbrev pub one_of : Text → List Text → Bool
one_of v = any (text_eq v)

unfoldable pub param_fits : ParamKind → Text → Bool
param_fits flag v = one_of v (codes "0" ∷ codes "1" ∷ codes "true" ∷ codes "false" ∷ [])
param_fits enforce_statfs v = one_of v (codes "0" ∷ codes "1" ∷ codes "2" ∷ [])
param_fits securelevel v =
    one_of v (codes "-1" ∷ codes "0" ∷ codes "1" ∷ codes "2" ∷ codes "3" ∷ [])
param_fits unsigned v = all_digits v && leb (length v) 9
param_fits uint32 v = all_digits v && (leb (length v) 10 && leb (decimal_value v) 4294967295)
param_fits uuid v = length v == 36 && uuid_from 0 v

-- The scan of the table for the first entry with the key.
unfoldable pub find_param : Text → List (Text × ParamKind) → Option ParamKind
find_param key [] = none
find_param key ((k, kind) ∷ specs) = if text_eq key k then some kind else find_param key specs

abbrev pub check_param : Text → Option ParamKind → Check
check_param val none = err not_allowed_key
check_param val (some kind) = fail_if (not (param_fits kind val)) bad_value

-- The loop's body behind the search for the equals sign.
unfoldable pub token_cut : Option (Text × Text) → Check
unfolding find_param param_fits
token_cut none = err not_key_value
token_cut (some (key, val)) = do
  fail_if (is_empty key || is_empty val) not_key_value
  check_param val (find_param key k_jail_param_whitelist)

unfoldable pub check_token : Text → Check
unfolding token_cut
check_token tok = token_cut (cut_at b'=' tok)

-- `isspace` in the C locale, which `>>` skips.
abbrev pub is_space : ℕ → Bool
is_space c = c == 32 || (leb 9 c && leb c 13)

abbrev pub split_spaces : Text → List Text
split_spaces [] = [] ∷ []
split_spaces (c ∷ s) =
    let rest = split_spaces s in if is_space c then [] ∷ rest else add_front c rest

unfoldable pub tokens : Text → List Text
tokens s = keep_if (λ t. not (is_empty t)) (split_spaces s)

unfoldable pub check_tokens : List Text → Check
unfolding check_token
check_tokens [] = ok tt
check_tokens (tok ∷ toks) = check_token tok >> check_tokens toks

unfoldable pub validate_jail_parameters : Text → Check
unfolding check_tokens tokens validate_rule_text
validate_jail_parameters parameters = if is_empty parameters then ok tt else (do
  fail_if (ltb 4096 (length parameters)) long_parameters
  validate_rule_text parameters
  check_tokens (tokens parameters))

pub record CreateJailReq : Type 0 where
  pub name : Text
  pub path : Text
  pub hostname : Text
  pub vnet : Bool
  pub parameters : Text

unfoldable pub validate_create_jail : CreateJailReq → Check
unfolding validate_jail_name validate_absolute_path validate_hostname validate_jail_parameters
validate_create_jail r = do
  validate_jail_name (r.name)
  validate_absolute_path (r.path)
  validate_hostname (r.hostname)
  validate_jail_parameters (r.parameters)
