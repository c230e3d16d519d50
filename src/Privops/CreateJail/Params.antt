-- ===== src/Privops/CreateJail/Params.antt =====
-- The validator of the parameter list accepts exactly the lists described in
-- Privops.CreateJail.Language.
use crate.Base.{
  All, Bool, Bool-cases, List, Option, Option-cases, Text, [], ap, cut_at, cut_at-append,
  cut_at_sound, fail_if, fail_if-then, false, has, inl, inr, is_empty, none, not, ok, refl, some,
  subst, sym, text_eq, text_eq→eq, true, ◌++◌, ◌||◌, ◌∙◌, ◌∷◌, ◌≡◌,
}
use crate.Privops.Fields.{FieldError, not_key_value, bad_value}
use crate.Privops.CreateJail.{
  ParamKind, flag, enforce_statfs, securelevel, unsigned, uint32, uuid, k_jail_param_whitelist,
  param_fits, find_param, check_param, token_cut, check_token,
}
use crate.Privops.CreateJail.Language.{OneOf, IsParam, flag_keys}
use crate.Privops.CreateJail.Values.{Fits, param_fits_iff}

-- The proofs for the entries of a table, one behind the other.
infixr 3 ◌&◌
abbrev ◌&◌ : {A B : Type 0} → A → B → A × B
a & b = (a, b)

some_injective : {A : Type 0} {a b : A} → some a ≡ some b → a ≡ b
some_injective h = cc

-- What holds of each entry of a table holds of the one that the scan finds.
find_param-All :
    (P : Text → ParamKind → Type 0) (key : Text) (specs : List (Text × ParamKind))
    (kind : ParamKind)
    → All (λ (s : Text × ParamKind). P s.0 s.1) specs
    → find_param key specs ≡ some kind
    → P key kind
unfolding find_param
find_param-All P key [] kind each h = cc
find_param-All P key ((k, this) ∷ specs) kind each h = elim (Bool-cases (text_eq key k)) [
  | inl same ↦
      subst (λ t. P t kind) (sym (text_eq→eq key k same))
        (subst (P k) (some_injective (rw same at h)) each.0)
  | inr other ↦ find_param-All P key specs kind each.1 (rw other at h)
]

abbrev Allows : Text → ParamKind → Type 0
Allows key kind = (val : Text) → Fits kind val → IsParam key val

whitelist-Allows : All (λ (s : Text × ParamKind). Allows s.0 s.1) k_jail_param_whitelist
whitelist-Allows =
    (λ v h. inl (inl refl, h))
    & (λ v h. inl (inr (inl refl), h))
    & (λ v h. inl (inr (inr (inl refl)), h))
    & (λ v h. inl (inr (inr (inr (inl refl))), h))
    & (λ v h. inl (inr (inr (inr (inr (inl refl)))), h))
    & (λ v h. inl (inr (inr (inr (inr (inr (inl refl))))), h))
    & (λ v h. inl (inr (inr (inr (inr (inr (inr (inl refl)))))), h))
    & (λ v h. inl (inr (inr (inr (inr (inr (inr (inr (inl refl))))))), h))
    & (λ v h. inl (inr (inr (inr (inr (inr (inr (inr (inr (inl refl)))))))), h))
    & (λ v h. inr (inl (refl, h)))
    & (λ v h. inr (inr (inl (refl, h))))
    & (λ v h. inr (inr (inr (inl (refl, h)))))
    & (λ v h. inr (inr (inr (inr (inl (refl, h))))))
    & (λ v h. inr (inr (inr (inr (inr (refl, h))))))
    & tt

OneOf-All : (P : Text → Type 0) (ws : List Text) (v : Text) → All P ws → OneOf v ws → P v
OneOf-All P [] v each h = absurd h
OneOf-All P (w ∷ ws) v each (inl same) = subst P (sym same) each.0
OneOf-All P (w ∷ ws) v each (inr later) = OneOf-All P ws v each.1 later

-- A parameter: its key is in the table, under a kind that its value fits.
IsListed : Text → Text → Type 0
IsListed key val =
    (kind : ParamKind) × (find_param key k_jail_param_whitelist ≡ some kind) × Fits kind val

flag_keys-found : All (λ k. find_param k k_jail_param_whitelist ≡ some flag) flag_keys
unfolding find_param
flag_keys-found = refl & refl & refl & refl & refl & refl & refl & refl & refl & tt

IsParam-IsListed : (key val : Text) → IsParam key val → IsListed key val
unfolding find_param IsListed
IsParam-IsListed key val (inl (k, v)) = (
  flag,
  OneOf-All (λ t. find_param t k_jail_param_whitelist ≡ some flag) flag_keys key flag_keys-found k,
  v,
)
IsParam-IsListed key val (inr (inl (k, v))) =
    (enforce_statfs, ap (λ t. find_param t k_jail_param_whitelist) k, v)
IsParam-IsListed key val (inr (inr (inl (k, v)))) =
    (securelevel, ap (λ t. find_param t k_jail_param_whitelist) k, v)
IsParam-IsListed key val (inr (inr (inr (inl (k, v))))) =
    (unsigned, ap (λ t. find_param t k_jail_param_whitelist) k, v)
IsParam-IsListed key val (inr (inr (inr (inr (inl (k, v)))))) =
    (uuid, ap (λ t. find_param t k_jail_param_whitelist) k, v)
IsParam-IsListed key val (inr (inr (inr (inr (inr (k, v)))))) =
    (uint32, ap (λ t. find_param t k_jail_param_whitelist) k, v)

-- A key of the table has an equals sign nowhere, and neither key nor value is empty.
IsPart : Text → Type 0
IsPart t = (is_empty t ≡ false) × (has b'=' t ≡ false)

flag_keys-IsPart : All IsPart flag_keys
unfolding IsPart
flag_keys-IsPart =
    (refl, refl)
    & (refl, refl)
    & (refl, refl)
    & (refl, refl)
    & (refl, refl)
    & (refl, refl)
    & (refl, refl)
    & (refl, refl)
    & (refl, refl)
    & tt

key-IsPart : (key val : Text) → IsParam key val → IsPart key
unfolding IsPart
key-IsPart key val (inl (k, v)) = OneOf-All IsPart flag_keys key flag_keys-IsPart k
key-IsPart key val (inr (inl (k, v))) = (ap is_empty k, ap (has b'=') k)
key-IsPart key val (inr (inr (inl (k, v)))) = (ap is_empty k, ap (has b'=') k)
key-IsPart key val (inr (inr (inr (inl (k, v))))) = (ap is_empty k, ap (has b'=') k)
key-IsPart key val (inr (inr (inr (inr (inl (k, v)))))) = (ap is_empty k, ap (has b'=') k)
key-IsPart key val (inr (inr (inr (inr (inr (k, v)))))) = (ap is_empty k, ap (has b'=') k)

Fits-some : (kind : ParamKind) (val : Text) → Fits kind val → is_empty val ≡ false
unfolding param_fits
Fits-some flag [] h = let fits = (param_fits_iff flag []).1 h in cc
Fits-some enforce_statfs [] h = let fits = (param_fits_iff enforce_statfs []).1 h in cc
Fits-some securelevel [] h = let fits = (param_fits_iff securelevel []).1 h in cc
Fits-some unsigned [] h = let fits = (param_fits_iff unsigned []).1 h in cc
Fits-some uint32 [] h = let fits = (param_fits_iff uint32 []).1 h in cc
Fits-some uuid [] h = let fits = (param_fits_iff uuid []).1 h in cc
Fits-some kind (c ∷ val) h = refl

not-fail_if : (b : Bool) (e : FieldError) → fail_if (not b) e ≡ ok tt → b ≡ true
not-fail_if true e h = refl
not-fail_if false e h = cc

check_param_sound :
    (key val : Text) (found : Option ParamKind)
    → find_param key k_jail_param_whitelist ≡ found
    → check_param val found ≡ ok tt
    → IsParam key val
check_param_sound key val none at h = cc
check_param_sound key val (some kind) at h =
    find_param-All Allows key k_jail_param_whitelist kind whitelist-Allows at val
      ((param_fits_iff kind val).0 (not-fail_if (param_fits kind val) bad_value h))

-- A token that the loop accepts is a parameter, and the loop accepts each parameter.
pub check_token_sound :
    (tok : Text)
    → check_token tok ≡ ok tt
    → (key : Text) × (val : Text) × (tok ≡ key ++ b'=' ∷ val) × IsParam key val
unfolding check_token token_cut
check_token_sound tok h = elim (Option-cases (cut_at b'=' tok)) [
  | inl e ↦ let bad = sym h ∙ ap token_cut e in cc
  | inr ((key, val), e) ↦
      let (_, fits) =
        fail_if-then (is_empty key || is_empty val) not_key_value
          (check_param val (find_param key k_jail_param_whitelist)) tt (sym (ap token_cut e) ∙ h) in
      (
        key,
        val,
        (cut_at_sound b'=' tok key val e).0,
        check_param_sound key val (find_param key k_jail_param_whitelist) refl fits,
      )
]

pub check_token_complete :
    (key val : Text) → IsParam key val → check_token (key ++ b'=' ∷ val) ≡ ok tt
unfolding check_token token_cut IsPart IsListed
check_token_complete key val p =
    let (some_key, plain) = key-IsPart key val p in
    let (kind, found, fits) = IsParam-IsListed key val p in
    rw (cut_at-append b'=' key val plain) (
      rw (some_key, Fits-some kind val fits)
        (rw found (rw ((param_fits_iff kind val).1 fits) refl)))

pub check_token-filled : (tok : Text) → check_token tok ≡ ok tt → is_empty tok ≡ false
unfolding check_token token_cut
check_token-filled [] h = cc
check_token-filled (c ∷ tok) h = refl
