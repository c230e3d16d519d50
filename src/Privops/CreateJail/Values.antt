-- ===== src/Privops/CreateJail/Values.antt =====
-- The values that the validator takes for each kind of parameter are those described.
use crate.Base.{
  &&_elim, ==_iff, Bool, Bool-cases, List, Text, [], ap, append-nil, ap₂, arith, codes,
  decimal_value, false, inl, inr, is_digit, leb, leb→le, length, length-append, le→leb, not, refl,
  subst, suc, sym, text_eq, text_eq_refl, text_eq→eq, true, zero, ℕ, ◌&&◌, ◌++◌, ◌+◌, ◌==◌, ◌↔◌,
  ◌∙◌, ◌∷◌, ◌≡◌, ◌≤◌,
}
use crate.Privops.Fields.Names.{all_iff}
use crate.Net.Syntax.{is_hex}
use crate.Privops.CreateJail.{
  ParamKind, param_fits, one_of, all_digits, uuid_from, is_dash_place, is_space, flag,
  enforce_statfs, securelevel, unsigned, uint32, uuid,
}
use crate.Privops.CreateJail.Language.{
  OneOf, IsDigit, IsHexDigit, IsBlank, IsNumber, IsGroup, IsUuid, IsFlagValue, IsStatfsValue,
  IsLevelValue, IsSmallNumber, IsWordNumber,
}

is_digit_iff : (c : ℕ) → (is_digit c ≡ true) ↔ IsDigit c
is_digit_iff c = ground arith

is_hex_iff : (c : ℕ) → (is_hex c ≡ true) ↔ IsHexDigit c
is_hex_iff c = ground arith

pub is_space_iff : (c : ℕ) → (is_space c ≡ true) ↔ IsBlank c
is_space_iff c = ground arith

pub one_of_iff : (v : Text) (ws : List Text) → (one_of v ws ≡ true) ↔ OneOf v ws
one_of_iff v [] = (λ h. cc, λ h. absurd h)
one_of_iff v (w ∷ ws) =
    let (sound, complete) = one_of_iff v ws in
    (
      (λ h. elim (Bool-cases (text_eq v w)) [
        | inl same ↦ inl (text_eq→eq v w same)
        | inr other ↦ inr (sound (rw other at h))
      ]),
      (λ h. elim h [
        | inl same ↦ rw same (rw (text_eq_refl w) refl)
        | inr later ↦ ground (arith, complete later)
      ]),
    )

all_digits_iff : (s : Text) → (all_digits s ≡ true) ↔ IsNumber s
all_digits_iff [] = (λ h. cc, λ h. absurd (h.0 refl))
all_digits_iff (c ∷ s) =
    let (sound, complete) = all_iff is_digit IsDigit is_digit_iff (c ∷ s) in
    ((λ h. (λ e. cc, sound h)), (λ h. complete h.1))

-- No dash belongs at any of the `n` positions from `i` on.
abbrev is_free : ℕ → ℕ → Bool
is_free i zero = true
is_free i (suc n) = not (is_dash_place i) && is_free (suc i) n

not-true : (b : Bool) → not b ≡ true → b ≡ false
not-true true h = cc
not-true false h = refl

IsGroup-sound :
    (i n j : ℕ) (s : Text)
    → i + n ≡ j
    → is_free i n ≡ true
    → n ≤ length s
    → uuid_from i s ≡ true
    → (g : Text) × (rest : Text) × IsGroup n g × (s ≡ g ++ rest) × (uuid_from j rest ≡ true)
IsGroup-sound i zero j s at free long h =
    ([], s, (refl, tt), refl, subst (λ k. uuid_from k s ≡ true) (omega (arith, at)) h)
IsGroup-sound i (suc n) j [] at free long h = absurd (omega (arith, long))
IsGroup-sound i (suc n) j (c ∷ s) at free long h =
    let (plain, later) = &&_elim (not (is_dash_place i)) (is_free (suc i) n) free in
    let (hex, after) = &&_elim (is_hex c) (uuid_from (suc i) s) (rw (not-true _ plain) at h) in
    let (g, rest, (size, digits), cut, end) =
      IsGroup-sound (suc i) n j s (omega (arith, at)) later (omega (arith, long)) after in
    (c ∷ g, rest, (ap suc size, ((is_hex_iff c).0 hex, digits)), ap (◌∷◌ c) cut, end)

IsGroup-complete :
    (i n j : ℕ) (g rest : Text)
    → i + n ≡ j
    → is_free i n ≡ true
    → IsGroup n g
    → uuid_from j rest ≡ true
    → uuid_from i (g ++ rest) ≡ true
IsGroup-complete i zero j [] rest at free h end =
    subst (λ k. uuid_from k rest ≡ true) (omega (arith, at)) end
IsGroup-complete i zero j (c ∷ g) rest at free h end = absurd (omega (arith, h.0))
IsGroup-complete i (suc n) j [] rest at free h end = absurd (omega (arith, h.0))
IsGroup-complete i (suc n) j (c ∷ g) rest at free (size, (hex, digits)) end =
    let (plain, later) = &&_elim (not (is_dash_place i)) (is_free (suc i) n) free in
    let after : uuid_from (suc i) (g ++ rest) ≡ true =
      IsGroup-complete (suc i) n j g rest (omega (arith, at)) later (omega (arith, size), digits)
        end in
    rw (not-true _ plain) (ap₂ ◌&&◌ ((is_hex_iff c).1 hex) after)

-- The dash between two groups.
dash_sound :
    (i : ℕ) (s : Text)
    → is_dash_place i ≡ true
    → 1 ≤ length s
    → uuid_from i s ≡ true
    → (rest : Text) × (s ≡ 45 ∷ rest) × (uuid_from (suc i) rest ≡ true)
dash_sound i [] place long h = absurd (omega (arith, long))
dash_sound i (c ∷ s) place long h =
    let (dash, after) = &&_elim (c == b'-') (uuid_from (suc i) s) (rw place at h) in
    (s, ap (λ x. x ∷ s) ((==_iff c b'-').0 dash), after)

-- A group, the dash behind it, and what is left.
part_sound :
    (i n j k : ℕ) (s : Text)
    → i + n ≡ j
    → is_free i n ≡ true
    → is_dash_place j ≡ true
    → length s ≡ n + suc k
    → uuid_from i s ≡ true
    → (g : Text) × (rest : Text) × IsGroup n g
      × (s ≡ g ++ 45 ∷ rest)
      × (length rest ≡ k)
      × (uuid_from (suc j) rest ≡ true)
part_sound i n j k s at free place size h =
    let (g, tail, group, cut, end) = IsGroup-sound i n j s at free (omega (arith, size)) h in
    let long : length tail ≡ suc k =
      omega (arith, ap length cut, length-append g tail, group.0, size) in
    let (rest, dash, after) = dash_sound j tail place (omega (arith, long)) end in
    (g, rest, group, cut ∙ ap (◌++◌ g) dash, omega (arith, long, ap length dash), after)

no_bytes : (s : Text) → length s ≡ 0 → s ≡ []
no_bytes [] h = refl
no_bytes (c ∷ s) h = absurd (omega (arith, h))

IsUuid-sound : (s : Text) → length s ≡ 36 → uuid_from 0 s ≡ true → IsUuid s
IsUuid-sound s size h =
    let (a, s₁, ga, e₁, n₁, h₁) = part_sound 0 8 8 27 s refl refl refl size h in
    let (b, s₂, gb, e₂, n₂, h₂) = part_sound 9 4 13 22 s₁ refl refl refl n₁ h₁ in
    let (c, s₃, gc, e₃, n₃, h₃) = part_sound 14 4 18 17 s₂ refl refl refl n₂ h₂ in
    let (d, s₄, gd, e₄, n₄, h₄) = part_sound 19 4 23 12 s₃ refl refl refl n₃ h₃ in
    let (e, end, ge, e₅, h₅) = IsGroup-sound 24 12 36 s₄ refl refl (omega (arith, n₄)) h₄ in
    let done : end ≡ [] =
      no_bytes end (omega (arith, ap length e₅, length-append e end, ge.0, n₄)) in
    (
      a,
      b,
      c,
      d,
      e,
      ga,
      gb,
      gc,
      gd,
      ge,
      e₁
          ∙ ap (λ t. a ++ 45 ∷ t)
              (e₂
                ∙ ap (λ t. b ++ 45 ∷ t)
                    (e₃
                      ∙ ap (λ t. c ++ 45 ∷ t)
                          (e₄ ∙ ap (λ t. d ++ 45 ∷ t) (e₅ ∙ ap (◌++◌ e) done ∙ append-nil e)))),
    )

IsUuid-complete : (s : Text) → IsUuid s → (length s ≡ 36) × (uuid_from 0 s ≡ true)
IsUuid-complete s (a, b, c, d, e, ga, gb, gc, gd, ge, eq) =
    let h₅ : uuid_from 24 e ≡ true =
      subst (λ t. uuid_from 24 t ≡ true) (append-nil e)
        (IsGroup-complete 24 12 36 e [] refl refl ge refl) in
    let h₄ = IsGroup-complete 19 4 23 d (45 ∷ e) refl refl gd h₅ in
    let h₃ = IsGroup-complete 14 4 18 c (45 ∷ (d ++ 45 ∷ e)) refl refl gc h₄ in
    let h₂ = IsGroup-complete 9 4 13 b (45 ∷ (c ++ 45 ∷ (d ++ 45 ∷ e))) refl refl gb h₃ in
    let h₁ =
      IsGroup-complete 0 8 8 a (45 ∷ (b ++ 45 ∷ (c ++ 45 ∷ (d ++ 45 ∷ e)))) refl refl ga h₂ in
    (
      ap length eq
          ∙ omega (
            arith,
            length-append a (45 ∷ (b ++ 45 ∷ (c ++ 45 ∷ (d ++ 45 ∷ e)))),
            length-append b (45 ∷ (c ++ 45 ∷ (d ++ 45 ∷ e))),
            length-append c (45 ∷ (d ++ 45 ∷ e)),
            length-append d (45 ∷ e),
            ga.0,
            gb.0,
            gc.0,
            gd.0,
            ge.0,
          ),
      subst (λ t. uuid_from 0 t ≡ true) (sym eq) h₁,
    )

-- What a value of each kind is.
abbrev pub Fits : ParamKind → Text → Type 0
Fits flag v = IsFlagValue v
Fits enforce_statfs v = IsStatfsValue v
Fits securelevel v = IsLevelValue v
Fits unsigned v = IsSmallNumber v
Fits uint32 v = IsWordNumber v
Fits uuid v = IsUuid v

pub param_fits_iff : (kind : ParamKind) (v : Text) → (param_fits kind v ≡ true) ↔ Fits kind v
unfolding param_fits
param_fits_iff flag v = one_of_iff v (codes "0" ∷ codes "1" ∷ codes "true" ∷ codes "false" ∷ [])
param_fits_iff enforce_statfs v = one_of_iff v (codes "0" ∷ codes "1" ∷ codes "2" ∷ [])
param_fits_iff securelevel v =
    one_of_iff v (codes "-1" ∷ codes "0" ∷ codes "1" ∷ codes "2" ∷ codes "3" ∷ [])
param_fits_iff unsigned v =
    let (sound, complete) = all_digits_iff v in
    (
      (λ h.
          let (digits, short) = &&_elim (all_digits v) (leb (length v) 9) h in
          (sound digits, leb→le _ _ short)),
      (λ h. ap₂ ◌&&◌ (complete h.0) (le→leb _ _ h.1)),
    )
param_fits_iff uint32 v =
    let (sound, complete) = all_digits_iff v in
    (
      (λ h.
          let (digits, more) =
            &&_elim (all_digits v) (leb (length v) 10 && leb (decimal_value v) 4294967295) h in
          let (short, small) =
            &&_elim (leb (length v) 10) (leb (decimal_value v) 4294967295) more in
          (
            sound digits,
            (leb→le _ _ short, omega (arith, leb→le (decimal_value v) 4294967295 small)),
          )),
      (λ h. ap₂ ◌&&◌ (complete h.0) (
          ap₂ ◌&&◌ (le→leb _ _ h.1.0)
            (le→leb (decimal_value v) 4294967295 (omega (arith, h.1.1))))),
    )
param_fits_iff uuid v = (
  (λ h.
      let (size, body) = &&_elim (length v == 36) (uuid_from 0 v) h in
      IsUuid-sound v ((==_iff (length v) 36).0 size) body),
  (λ h. let (size, body) = IsUuid-complete v h in ap₂ ◌&&◌ ((==_iff (length v) 36).1 size) body),
)
