-- ===== src/Tests/Daemon.antt =====
-- The theorems on the daemon's token checks and rate limiter at concrete inputs.
use crate.Base.{
  List, Text, [], arith, codes, false, has, is_empty, length, ok, pos, refl, true, ◌++◌, ◌↔◌, ◌∷◌,
  ◌≡◌, ◌⊎◌,
}
use crate.Daemon.RateLimit.{fresh_bucket, answers}
use crate.Daemon.RateLimit.Fair.{allowed_in, requests_in, least, answers-least}
use crate.Daemon.Auth.{AuthToken, bearer_prefix, check_bearer_auth_full, path_in_scope}
use crate.Daemon.Auth.Scope.{AnyMatches, path_in_scope_iff}
use crate.Daemon.Auth.Access.{FirstWith, Grants, check_bearer_auth_full_iff}
use crate.Daemon.Frames.{Opcode, parse_frame, encode_frame, used_key}
use crate.Daemon.Frames.RoundTrip.{frame_of, parse_frame-encode_frame}
use crate.Daemon.Pools.{infer_pool, validate_pool_name, token_allows_container, restricted_iff}

answers-least_example :
    allowed_in 7 (answers (pos 2) fresh_bucket (5 ∷ 7 ∷ 7 ∷ 7 ∷ 9 ∷ []))
    ≡ least (requests_in 7 (5 ∷ 7 ∷ 7 ∷ 7 ∷ 9 ∷ [])) 2
answers-least_example =
    answers-least 1 7 (5 ∷ 7 ∷ 7 ∷ 7 ∷ 9 ∷ [])
      (omega arith, (omega arith, (omega arith, (omega arith, (omega arith, tt)))))

-- In place of SHA-256.
abbrev mark_hash : Text → Text
mark_hash s = codes "sha256:" ++ s

abbrev viewer : AuthToken
viewer = record {
  name = codes "grafana";
  token_hash = codes "sha256:secret";
  role = codes "viewer";
  pools = [];
  expires_at = 0;
  scope = codes "/api/v1/containers/*" ∷ [];
}

check_bearer_auth_full_iff_example :
    (check_bearer_auth_full mark_hash
        (codes "Bearer secret")
        (viewer ∷ [])
        (codes "viewer")
        (codes "/api/v1/containers/web")
        1700000000
      ≡ true)
    ↔ ((token : Text) × (is_empty token ≡ false)
        × (codes "Bearer secret" ≡ bearer_prefix ++ token)
        × ((t : AuthToken) × FirstWith (mark_hash token) (viewer ∷ []) t
            × Grants t (codes "viewer") (codes "/api/v1/containers/web") 1700000000))
check_bearer_auth_full_iff_example =
    check_bearer_auth_full_iff mark_hash (codes "Bearer secret") (viewer ∷ []) (codes "viewer")
      (codes "/api/v1/containers/web") 1700000000

restricted_iff_example :
    (token_allows_container (codes "dev" ∷ []) (infer_pool (codes "dev-web") b'-') ≡ true) ↔ (
      (pool : Text) × ((rest : Text) × (codes "dev-web" ≡ pool ++ b'-' ∷ rest)
        × (is_empty pool ≡ false)
        × (has b'-' pool ≡ false)
        × ((before : List Text) × ((after : List Text) × (codes "dev" ∷ []
                ≡ before ++ pool ∷ after)))))
restricted_iff_example = restricted_iff (codes "dev" ∷ []) (codes "dev-web") b'-' (refl, refl)

path_in_scope_iff_example :
    (path_in_scope viewer.scope (codes "/api/v1/containers/web") ≡ true)
    ↔ ((viewer.scope ≡ []) ⊎ AnyMatches viewer.scope (codes "/api/v1/containers/web"))
path_in_scope_iff_example = path_in_scope_iff viewer.scope (codes "/api/v1/containers/web")

parse_frame-encode_frame_example :
    parse_frame (encode_frame Opcode.text (codes "ls") true (1 ∷ 2 ∷ 3 ∷ 4 ∷ []) ++ codes "next")
    ≡ ok (
      length (encode_frame Opcode.text (codes "ls") true (1 ∷ 2 ∷ 3 ∷ 4 ∷ [])),
      frame_of Opcode.text (codes "ls") (used_key true (1 ∷ 2 ∷ 3 ∷ 4 ∷ [])),
    )
parse_frame-encode_frame_example =
    parse_frame-encode_frame Opcode.text (codes "ls") (codes "next") (1 ∷ 2 ∷ 3 ∷ 4 ∷ []) true
      (omega arith, refl, refl)

-- A pool whose name has the separator reaches none of the jails that are named after it.
dev_eu_name : validate_pool_name (codes "dev-eu") ≡ ok tt
unfolding validate_pool_name
dev_eu_name = refl

dev_eu_refused :
    token_allows_container (codes "dev-eu" ∷ []) (infer_pool (codes "dev-eu-web") b'-') ≡ false
unfolding token_allows_container infer_pool
dev_eu_refused = refl
