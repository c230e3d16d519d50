-- ===== src/Daemon/Pools.antt =====
-- Pool access lists of tokens: lib/pool_pure.cpp.
use crate.Base.{
  Bool, Bool-cases, List, Option-cases, Result, Text, [], any, ap, arith, codes, cut_at,
  cut_at-append, cut_at_sound, err, fail_if, false, has, if◌then◌else◌, inl, inr, is_alnum,
  is_empty, length, ltb, none, not, ok, some, text_eq, text_eq_refl, text_eq→eq, true, ℕ, ◌++◌,
  ◌==◌, ◌>>◌, ◌||◌, ◌↔◌, ◌∙◌, ◌∷◌, ◌≡◌,
}

-- A separator in front gives the empty pool, which is no pool.
unfoldable pub infer_pool : Text → ℕ → Text
infer_pool jail_name separator =
    if is_empty jail_name
    then []
    else elim (cut_at separator jail_name) [ none ↦ [] | some (pool, rest) ↦ pool ]

pub data PoolNameError : Type 0 where
  name_empty name_too_long bad_first_char : PoolNameError
  bad_char : ℕ → PoolNameError

abbrev pub pool_char : ℕ → Bool
pool_char c = is_alnum c || (c == b'_' || c == b'-')

abbrev pub check_chars : Text → Result PoolNameError (Unit {0})
check_chars [] = ok tt
check_chars (c ∷ s) = if pool_char c then check_chars s else err (bad_char c)

abbrev pub check_first : Text → Result PoolNameError (Unit {0})
check_first [] = ok tt
check_first (c ∷ s) = fail_if (not (is_alnum c)) bad_first_char

unfoldable pub validate_pool_name : Text → Result PoolNameError (Unit {0})
validate_pool_name name =
    fail_if (is_empty name) name_empty
    >> fail_if (ltb 32 (length name)) name_too_long
    >> (if text_eq name (codes "*") then ok tt else check_first name >> check_chars name)

unfoldable pub token_allows_container : List Text → Text → Bool
token_allows_container token_pools container_pool =
    if is_empty token_pools
    then true
    else if any (λ p. text_eq p (codes "*")) token_pools
    then true
    else if is_empty container_pool
    then false
    else any (λ p. text_eq p container_pool) token_pools

-- A token that lists pools, none of them `*`.
abbrev pub IsRestricted : List Text → Type 0
IsRestricted pools = (is_empty pools ≡ false) × (any (λ p. text_eq p (codes "*")) pools ≡ false)

any_eq :
    (s : Text) (ps : List Text)
    → any (λ p. text_eq p s) ps ≡ true
    → (before : List Text) × ((after : List Text) × (ps ≡ before ++ s ∷ after))
any_eq s [] h = cc
any_eq s (p ∷ ps) h = elim (Bool-cases (text_eq p s)) [
  | inl same ↦ ([], (ps, ap (λ t. t ∷ ps) (text_eq→eq p s same)))
  | inr other ↦
      let (before, (after, eq)) = any_eq s ps (rw other at h) in
      (p ∷ before, (after, ap (◌∷◌ p) eq))
]

any_eq_back :
    (s : Text) (before after : List Text) → any (λ p. text_eq p s) (before ++ s ∷ after) ≡ true
any_eq_back s [] after = ground (arith, text_eq_refl s)
any_eq_back s (p ∷ before) after = ground (arith, any_eq_back s before after)

infer_pool-append :
    (pool rest : Text) (separator : ℕ)
    → is_empty pool ≡ false
    → has separator pool ≡ false
    → infer_pool (pool ++ separator ∷ rest) separator ≡ pool
unfolding infer_pool
infer_pool-append [] rest separator full plain = cc
infer_pool-append (c ∷ pool) rest separator full plain =
    rw (cut_at-append separator (c ∷ pool) rest plain)

-- A token with a list of pools and no `*` reaches exactly the jails that are named `<pool>`, the
-- separator and anything, for a pool of its list that is not empty and does not have the separator.
pub restricted_iff :
    (pools : List Text) (jail : Text) (separator : ℕ)
    → IsRestricted pools
    → (token_allows_container pools (infer_pool jail separator) ≡ true) ↔ (
        (pool : Text) × ((rest : Text) × (jail ≡ pool ++ separator ∷ rest)
          × (is_empty pool ≡ false)
          × (has separator pool ≡ false)
          × ((before : List Text) × ((after : List Text) × (pools ≡ before ++ pool ∷ after)))))
unfolding token_allows_container infer_pool
restricted_iff pools jail separator (listed, no_star) = (sound, complete)
  where
    sound :
        token_allows_container pools (infer_pool jail separator) ≡ true
        → (pool : Text) × ((rest : Text) × (jail ≡ pool ++ separator ∷ rest)
            × (is_empty pool ≡ false)
            × (has separator pool ≡ false)
            × ((before : List Text) × ((after : List Text) × (pools ≡ before ++ pool ∷ after))))
    sound h = elim (Option-cases (cut_at separator jail)) [
      | inl e ↦ ground arith
      | inr (r, e) ↦
          let (same, plain) = cut_at_sound separator jail r.0 r.1 e in
          let full_jail : is_empty jail ≡ false = ground (arith, h, e) in
          let h' = rw (listed, no_star, full_jail, e) at h in
          let full : is_empty r.0 ≡ false = ground (arith, h') in
          (r.0, (r.1, same, full, plain, any_eq r.0 pools (rw full at h')))
    ]

    complete :
        ((pool : Text) × ((rest : Text) × (jail ≡ pool ++ separator ∷ rest)
            × (is_empty pool ≡ false)
            × (has separator pool ≡ false)
            × ((before : List Text) × ((after : List Text) × (pools ≡ before ++ pool ∷ after)))))
        → token_allows_container pools (infer_pool jail separator) ≡ true
    complete (pool, (rest, same, full, plain, (before, (after, eq)))) =
        let read : infer_pool jail separator ≡ pool =
          ap (λ t. infer_pool t separator) same
          ∙ infer_pool-append pool rest separator full plain in
        let found : any (λ p. text_eq p pool) pools ≡ true =
          ap (λ (ps : List Text). any (λ p. text_eq p pool) ps) eq
          ∙ any_eq_back pool before after in
        rw (listed, no_star) (rw read (rw full found))
