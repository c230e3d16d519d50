-- ===== src/Daemon/Auth.antt =====
-- Bearer tokens of the HTTP API: lib/auth_pure.cpp, with the token record of daemon/config.h. SHA-256
-- is a parameter. `parseIso8601Utc`, which reads the expiry of the configuration, is not modelled.
pub mod Access
pub mod Scope
use crate.Base.{
  Bool, List, Text, [], any, codes, drop, false, if◌then◌else◌, is_empty, leb, length, ltb, not,
  starts_with, take, text_eq, true, ℕ, ◌&&◌, ◌-◌, ◌==◌, ◌||◌, ◌∷◌,
}

pub record AuthToken : Type 0 where
  pub name : Text
  pub token_hash : Text
  pub role : Text
  pub pools : List Text
  pub expires_at : ℕ
  pub scope : List Text

abbrev pub bearer_prefix : Text
bearer_prefix = codes "Bearer "

unfoldable pub parse_bearer_token : Text → Text
parse_bearer_token header =
    if leb (length header) (length bearer_prefix)
    then []
    else if not (starts_with bearer_prefix header)
    then []
    else drop (length bearer_prefix) header

-- The role test behind the match of the hash.
abbrev pub role_allows : AuthToken → Text → Bool
role_allows t required_role =
    if text_eq required_role (codes "viewer")
    then true
    else text_eq t.role required_role || text_eq t.role (codes "admin")

unfoldable pub check_token_role : Text → List AuthToken → Text → Bool
check_token_role hash [] required_role = false
check_token_role hash (t ∷ ts) required_role =
    let rest = check_token_role hash ts required_role in
    if text_eq t.token_hash hash then role_allows t required_role else rest

unfoldable pub check_bearer_auth : (Text → Text) → Text → List AuthToken → Text → Bool
check_bearer_auth sha256 header tokens required_role =
    let token = parse_bearer_token header in
    if is_empty token then false else check_token_role (sha256 token) tokens required_role

unfoldable pub is_expired : AuthToken → ℕ → Bool
is_expired t now = if t.expires_at == 0 then false else ltb t.expires_at now

-- `p.compare(p.size() - 2, 2, "/*") == 0` behind the test of the size.
abbrev pub ends_in_glob : Text → Bool
ends_in_glob p = leb 2 (length p) && text_eq (drop (length p - 2) p) (codes "/*")

-- One turn of the loop over the scope.
unfoldable pub pattern_allows : Text → Text → Bool
pattern_allows p path =
    if is_empty p
    then false
    else if ends_in_glob p
    then (let prefix = take (length p - 1) p in
        ltb (length prefix) (length path) && starts_with prefix path)
    else text_eq path p

unfoldable pub path_in_scope : List Text → Text → Bool
path_in_scope scope path = if is_empty scope then true else any (λ p. pattern_allows p path) scope

unfoldable pub check_entries : Text → List AuthToken → Text → Text → ℕ → Bool
check_entries hash [] required_role path now = false
check_entries hash (t ∷ ts) required_role path now =
    let rest = check_entries hash ts required_role path now in
    if not (text_eq t.token_hash hash)
    then rest
    else if is_expired t now
    then false
    else if not (path_in_scope t.scope path)
    then false
    else role_allows t required_role

unfoldable pub check_bearer_auth_full :
    (Text → Text) → Text → List AuthToken → Text → Text → ℕ → Bool
check_bearer_auth_full sha256 header tokens required_role path now =
    let token = parse_bearer_token header in
    if is_empty token then false else check_entries (sha256 token) tokens required_role path now
