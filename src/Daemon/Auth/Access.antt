-- ===== src/Daemon/Auth/Access.antt =====
-- Whom the token check lets in.
use crate.Base.{
  Bool-cases, List, Text, [], ap, arith, codes, drop, false, if◌then◌else◌, inl, inr, is_empty,
  length, not, refl, starts_with, starts_with→append, subst, sym, text_eq, text_eq_refl, text_eq→eq,
  true, ℕ, ◌++◌, ◌↔◌, ◌∙◌, ◌∷◌, ◌≡◌, ◌≢◌, ◌≤◌, ◌⊎◌,
}
use crate.Daemon.Auth.{
  AuthToken, bearer_prefix, parse_bearer_token, role_allows, is_expired, path_in_scope,
  check_entries, check_bearer_auth_full,
}

parse_bearer_sound :
    (header token : Text)
    → is_empty token ≡ false
    → parse_bearer_token header ≡ token
    → header ≡ bearer_prefix ++ token
unfolding parse_bearer_token
parse_bearer_sound header token full h =
    let start : starts_with bearer_prefix header ≡ true = ground (arith, full, h) in
    let rest : drop (length bearer_prefix) header ≡ token = ground (arith, full, h) in
    starts_with→append bearer_prefix header start ∙ ap (◌++◌ bearer_prefix) rest

parse_bearer_complete :
    (token : Text) → is_empty token ≡ false → parse_bearer_token (bearer_prefix ++ token) ≡ token
unfolding parse_bearer_token
parse_bearer_complete [] full = cc
parse_bearer_complete (c ∷ token) full = ground arith

-- The first entry with a hash.
abbrev pub FirstWith : Text → List AuthToken → AuthToken → Type 0
FirstWith hash [] t = ⊥
FirstWith hash (s ∷ ts) t =
    ((s.token_hash ≡ hash) × (s ≡ t)) ⊎ ((s.token_hash ≢ hash) × FirstWith hash ts t)

-- What a live token may do.
abbrev pub Grants : AuthToken → Text → Text → ℕ → Type 0
Grants t required_role path now =
    ((t.expires_at ≡ 0) ⊎ (now ≤ t.expires_at))
    × (path_in_scope t.scope path ≡ true)
    × ((required_role ≡ codes "viewer") ⊎ ((t.role ≡ required_role) ⊎ (t.role ≡ codes "admin")))

text_eq_iff : (s t : Text) → (text_eq s t ≡ true) ↔ (s ≡ t)
text_eq_iff s t = (text_eq→eq s t, λ e. ap (text_eq s) (sym e) ∙ text_eq_refl s)

-- The role of a token is enough for a viewer's request always, and for another one if it is the
-- required role or `admin`.
role_iff :
    (t : AuthToken) (required_role : Text)
    → (role_allows t required_role ≡ true)
      ↔ ((required_role ≡ codes "viewer") ⊎ ((t.role ≡ required_role) ⊎ (t.role ≡ codes "admin")))
role_iff t required_role =
    let viewer = text_eq_iff required_role (codes "viewer") in
    let same = text_eq_iff t.role required_role in
    let admin = text_eq_iff t.role (codes "admin") in
    (
      (λ h. elim (Bool-cases (text_eq required_role (codes "viewer"))) [
        | inl v ↦ inl (viewer.0 v)
        | inr other ↦ elim (Bool-cases (text_eq t.role required_role)) [
          | inl s ↦ inr (inl (same.0 s))
          | inr differs ↦ inr (inr (admin.0 (rw (other, differs) at h)))
        ]
      ]),
      (λ h. elim h [
        | inl v ↦ rw (viewer.1 v) refl
        | inr (inl s) ↦ ground (arith, same.1 s)
        | inr (inr a) ↦ ground (arith, admin.1 a)
      ]),
    )

entry_iff :
    (t : AuthToken) (required_role path : Text) (now : ℕ)
    → ((if is_expired t now
          then false
          else if not (path_in_scope t.scope path)
          then false
          else role_allows t required_role)
        ≡ true)
      ↔ Grants t required_role path now
unfolding is_expired
entry_iff t required_role path now =
    let (sound, complete) = role_iff t required_role in
    (
      (λ h.
          let role : role_allows t required_role ≡ true = ground arith in
          (ground arith, ground arith, sound role)),
      (λ h. let role = complete h.2 in ground (arith, h.0, h.1, role)),
    )

check_entries_sound :
    (hash : Text) (ts : List AuthToken) (required_role path : Text) (now : ℕ)
    → check_entries hash ts required_role path now ≡ true
    → (t : AuthToken) × FirstWith hash ts t × Grants t required_role path now
unfolding check_entries
check_entries_sound hash [] required_role path now h = cc
check_entries_sound hash (s ∷ ts) required_role path now h =
    elim (Bool-cases (text_eq s.token_hash hash)) [
      | inl same ↦ (
        s,
        inl (text_eq→eq s.token_hash hash same, refl),
        (entry_iff s required_role path now).0 (rw same at h),
      )
      | inr other ↦
          let (t, first, grants) =
            check_entries_sound hash ts required_role path now (rw other at h) in
          (t, inr (λ e. cc (text_eq_refl hash, other, e), first), grants)
    ]

check_entries_complete :
    (hash : Text) (ts : List AuthToken) (t : AuthToken) (required_role path : Text) (now : ℕ)
    → FirstWith hash ts t
    → Grants t required_role path now
    → check_entries hash ts required_role path now ≡ true
unfolding check_entries
check_entries_complete hash [] t required_role path now f g = absurd f
check_entries_complete hash (s ∷ ts) t required_role path now (inl (e, same)) g =
    let eq : text_eq s.token_hash hash ≡ true = rw e (text_eq_refl hash) in
    rw eq (
      (entry_iff s required_role path now).1
        (subst (λ (x : AuthToken). Grants x required_role path now) (sym same) g))
check_entries_complete hash (s ∷ ts) t required_role path now (inr (other, f)) g =
    elim (Bool-cases (text_eq s.token_hash hash)) [
      | inl same ↦ absurd (other (text_eq→eq s.token_hash hash same))
      | inr differs ↦ rw differs (check_entries_complete hash ts t required_role path now f g)
    ]

-- The full check lets a request in exactly if its header is `Bearer ` and a token that is not empty,
-- and the first configured entry with the token's hash has not expired, has the path in its scope,
-- and has the required role or `admin`, or the required role is `viewer`.
pub check_bearer_auth_full_iff :
    (sha256 : Text → Text) (header : Text) (ts : List AuthToken) (required_role path : Text)
    (now : ℕ)
    → (check_bearer_auth_full sha256 header ts required_role path now ≡ true) ↔ (
        (token : Text) × (is_empty token ≡ false)
        × (header ≡ bearer_prefix ++ token)
        × ((t : AuthToken) × FirstWith (sha256 token) ts t × Grants t required_role path now))
unfolding check_bearer_auth_full
check_bearer_auth_full_iff sha256 header ts required_role path now = (sound, complete)
  where
    sound :
        check_bearer_auth_full sha256 header ts required_role path now ≡ true
        → (token : Text) × (is_empty token ≡ false)
          × (header ≡ bearer_prefix ++ token)
          × ((t : AuthToken) × FirstWith (sha256 token) ts t × Grants t required_role path now)
    sound h =
        let token = parse_bearer_token header in
        let full : is_empty token ≡ false = ground arith in
        (
          token,
          full,
          parse_bearer_sound header token full refl,
          check_entries_sound (sha256 token) ts required_role path now (rw full at h),
        )

    complete :
        ((token : Text) × (is_empty token ≡ false)
          × (header ≡ bearer_prefix ++ token)
          × ((t : AuthToken) × FirstWith (sha256 token) ts t × Grants t required_role path now))
        → check_bearer_auth_full sha256 header ts required_role path now ≡ true
    complete (token, full, same, (t, first, grants)) =
        let read : parse_bearer_token header ≡ token =
          ap parse_bearer_token same ∙ parse_bearer_complete token full in
        rw read
          (rw full (check_entries_complete (sha256 token) ts t required_role path now first grants))
