-- ===== src/Privops/Authz/Slices.antt =====
-- Prefix ownership of datasets and paths, and the slices of two tenants.
use crate.Base.{
  &&_elim, Bool-cases, List, Text, [], all, ap, append-nil, append_assoc, arith, decimal,
  decimal-digits, decimal-injective, drop, drop-append, false, has-decimal, inl, inr, is_digit,
  is_empty, is_empty-decimal, last_or, length, length-append, refl, split_on, split_on-append,
  split_on-piece, starts_with, starts_with-append, starts_with→append, subst, sym, text_eq,
  text_eq_refl, text_eq→eq, true, ℕ, ◌++◌, ◌==◌, ◌||◌, ◌↔◌, ◌∙◌, ◌∷◌, ◌≡◌, ◌≢◌, ◌⊎◌,
}
use crate.Privops.UserEnv.{
  path_slice, compose_per_user_prefix, strip_slash, uid_str-decimal, uid_str,
}
use crate.Privops.Authz.{owned_under, head_is}

-- The prefix itself, or something below it in the tree: the separator belongs to the prefix or
-- starts the rest.
abbrev pub Under : Text → Text → Type 0
Under value prefix =
    (prefix ≡ [])
    ⊎ ((rest : Text) × (value ≡ prefix ++ rest)
        × ((rest ≡ []) ⊎ ((last_or 0 prefix ≡ b'/') ⊎ (head_is b'/' rest ≡ true))))

descendant :
    (value prefix : Text)
    → starts_with prefix value ≡ true
    → (last_or 0 prefix == b'/' || head_is b'/' (drop (length prefix) value)) ≡ true
    → Under value prefix
descendant value prefix start sep =
    inr (drop (length prefix) value, starts_with→append prefix value start, inr (ground arith))

owned_under_sound : (value prefix : Text) → owned_under value prefix ≡ true → Under value prefix
unfolding owned_under
owned_under_sound value [] h = inl refl
owned_under_sound value (c ∷ p) h = elim (Bool-cases (text_eq value (c ∷ p))) [
  | inl same ↦ inr ([], text_eq→eq value (c ∷ p) same ∙ sym (append-nil (c ∷ p)), inl refl)
  | inr other ↦
      let below = rw other at h in
      let (longer, rest) = &&_elim _ _ below in
      let (start, sep) = &&_elim _ _ rest in descendant value (c ∷ p) start sep
]

below_true :
    (c : ℕ) (p rest : Text) (b : ℕ)
    → (last_or 0 (c ∷ p) == b'/' || head_is b'/' (b ∷ rest)) ≡ true
    → owned_under (c ∷ p ++ b ∷ rest) (c ∷ p) ≡ true
unfolding owned_under
below_true c p rest b sep = ground (
  arith,
  starts_with-append p (b ∷ rest),
  length-append p (b ∷ rest),
  drop-append p (b ∷ rest),
  sep,
)

owned_under_complete : (value prefix : Text) → Under value prefix → owned_under value prefix ≡ true
unfolding owned_under
owned_under_complete value [] u = refl
owned_under_complete value (c ∷ p) (inl e) = cc
owned_under_complete value (c ∷ p) (inr ([], same, how)) =
    subst (λ v. owned_under v (c ∷ p) ≡ true) (sym (same ∙ append-nil (c ∷ p)))
      (rw (text_eq_refl (c ∷ p)) refl)
owned_under_complete value (c ∷ p) (inr (b ∷ rest, same, inl e)) = cc
owned_under_complete value (c ∷ p) (inr (b ∷ rest, same, inr sep)) =
    subst (λ v. owned_under v (c ∷ p) ≡ true) (sym same) (below_true c p rest b (ground arith))

-- A value is owned under a prefix exactly if the prefix is empty, or is the value, or is a proper
-- beginning of it that ends in a slash or is followed by one.
pub owned_under_iff : (value prefix : Text) → (owned_under value prefix ≡ true) ↔ Under value prefix
owned_under_iff value prefix = (owned_under_sound value prefix, owned_under_complete value prefix)

last_or-cons : (d c : ℕ) (s t : Text) → last_or d (s ++ c ∷ t) ≡ last_or c t
last_or-cons d c [] t = refl
last_or-cons d c (b ∷ s) t = last_or-cons b c s t

last_or-digits :
    (d : ℕ) (s : Text) → all is_digit s ≡ true → is_empty s ≡ false → is_digit (last_or d s) ≡ true
last_or-digits d [] h e = cc
last_or-digits d (c ∷ []) h e = ground arith
last_or-digits d (c ∷ b ∷ s) h e = last_or-digits c (b ∷ s) (&&_elim _ _ h).1 refl

-- A slice does not end in the separator.
slice_end : (base : Text) (u : ℕ) → (last_or 0 (base ++ b'/' ∷ decimal u) == b'/') ≡ false
slice_end base u =
    let last = last_or-cons 0 b'/' base (decimal u) in
    let digit = last_or-digits b'/' (decimal u) (decimal-digits u) (is_empty-decimal u) in
    rw last (ground (arith, digit))

-- What stands behind a slice starts a component, so the component after the base is the uid.
uid_component :
    (u : ℕ) (rest : Text)
    → (rest ≡ []) ⊎ (head_is b'/' rest ≡ true)
    → (tail : List Text) × (split_on b'/' (decimal u ++ rest) ≡ decimal u ∷ tail)
uid_component u [] h =
    ([], rw append-nil (split_on-piece b'/' (decimal u) (has-decimal b'/' u refl)))
uid_component u (b ∷ rest) (inl e) = cc
uid_component u (b ∷ rest) (inr e) =
    let slash : b ≡ b'/' = ground arith in
    (split_on b'/' rest, rw slash (split_on-append b'/' (decimal u) rest (has-decimal b'/' u refl)))

middle_ne : (s t : Text) (c : ℕ) → s ++ c ∷ t ≡ [] → ⊥
middle_ne [] t c e = cc
middle_ne (b ∷ s) t c e = cc

slice_rest :
    (base p : Text) (u : ℕ)
    → Under p (base ++ b'/' ∷ decimal u)
    → (rest : Text) × (drop (length base) p ≡ b'/' ∷ (decimal u ++ rest))
      × ((rest ≡ []) ⊎ (head_is b'/' rest ≡ true))
slice_rest base p u (inl e) = absurd (middle_ne base (decimal u) b'/' e)
slice_rest base p u (inr (rest, same, how)) = (
  rest,
  ap (drop (length base)) (same ∙ append_assoc base (b'/' ∷ decimal u) rest)
      ∙ drop-append base (b'/' ∷ (decimal u ++ rest)),
  ground (arith, slice_end base u),
)

same_uid :
    (base p : Text) (u v : ℕ)
    → Under p (base ++ b'/' ∷ decimal u)
    → Under p (base ++ b'/' ∷ decimal v)
    → u ≡ v
same_uid base p u v hu hv =
    let (ru, eu, bu) = slice_rest base p u hu in
    let (rv, ev, bv) = slice_rest base p v hv in
    let (tu, su) = uid_component u ru bu in
    let (tv, sv) = uid_component v rv bv in
    let same : decimal u ++ ru ≡ decimal v ++ rv = ground (arith, eu, ev) in
    let split : decimal u ∷ tu ≡ decimal v ∷ tv = sym su ∙ ap (split_on b'/') same ∙ sv in
    decimal-injective u v (ground (arith, split))

-- Under a configured master, a path that the gate counts as inside the slice of one caller is not
-- inside the slice of another uid.
pub slices_disjoint :
    (master p : Text) (u v : ℕ)
    → is_empty master ≡ false
    → u ≢ v
    → owned_under p (path_slice master u) ≡ true
    → owned_under p (path_slice master v) ≡ false
unfolding path_slice
slices_disjoint master p u v set other hu =
    elim (Bool-cases (owned_under p (strip_slash master ++ b'/' ∷ decimal v))) [
      | inl hv ↦ absurd (
          other (
            same_uid (strip_slash master) p u v (owned_under_sound p _ (rw set at hu))
              (owned_under_sound p _ hv)))
      | inr outside ↦ rw set outside
    ]

-- A dataset under the ZFS prefix that is composed for one uid is not under that of another.
pub zfs_prefixes_disjoint :
    (master d : Text) (u v : ℕ)
    → u ≢ v
    → owned_under d (compose_per_user_prefix master u) ≡ true
    → owned_under d (compose_per_user_prefix master v) ≡ false
unfolding compose_per_user_prefix
zfs_prefixes_disjoint master d u v other hu =
    elim (Bool-cases (owned_under d (strip_slash master ++ b'/' ∷ uid_str v))) [
      | inl hv ↦ absurd (
          other (
            same_uid (strip_slash master) d u v
              (owned_under_sound d _ (rw (uid_str-decimal u) at hu))
              (owned_under_sound d _ (rw (uid_str-decimal v) at hv))))
      | inr outside ↦ outside
    ]
