-- ===== src/Registry/JidOwners/Around.antt =====
-- Which paths the path of a jail is around: the test of `findOwnerByPath` in
-- lib/jid_owner_registry_pure.cpp, against a description of it.
use crate.Base.{
  &&_elim, ==_iff, Bool-cases, Text, [], ap, arith, drop, drop-append, false, inl, inr, length,
  length-append, refl, starts_with-append, starts_with→append, subst, sym, text_eq, text_eq_refl,
  text_eq→eq, true, ℕ, ◌++◌, ◌↔◌, ◌∙◌, ◌∷◌, ◌≡◌, ◌≢◌, ◌⊎◌,
}
use crate.Privops.Authz.{head_is}
use crate.Registry.JidOwners.{covers}

-- The path itself, or a directory above it.
abbrev pub IsAround : Text → Text → Type 0
IsAround p query = (p ≢ []) × ((query ≡ p) ⊎ ((rest : Text) × (query ≡ p ++ b'/' ∷ rest)))

head_is-cons : (c : ℕ) (s : Text) → head_is c s ≡ true → (rest : Text) × (s ≡ c ∷ rest)
head_is-cons c [] h = cc
head_is-cons c (b ∷ s) h = (s, ap (λ x. x ∷ s) ((==_iff b c).0 h))

covers_sound : (p query : Text) → covers p query ≡ true → IsAround p query
unfolding covers
covers_sound [] query h = cc
covers_sound (c ∷ p) query h = (
  λ e. cc,
  elim (Bool-cases (text_eq query (c ∷ p))) [
    | inl same ↦ inl (text_eq→eq query (c ∷ p) same)
    | inr other ↦
        let (_, below) = &&_elim _ _ (rw other at h) in
        let (start, slash) = &&_elim _ _ below in
        let (rest, cut) = head_is-cons b'/' (drop (length (c ∷ p)) query) slash in
        inr (rest, starts_with→append (c ∷ p) query start ∙ ap (◌++◌ (c ∷ p)) cut)
  ],
)

covers_below : (c : ℕ) (p rest : Text) → covers (c ∷ p) (c ∷ p ++ b'/' ∷ rest) ≡ true
unfolding covers
covers_below c p rest = ground (
  arith,
  starts_with-append p (b'/' ∷ rest),
  length-append p (b'/' ∷ rest),
  drop-append p (b'/' ∷ rest),
)

covers_complete : (p query : Text) → IsAround p query → covers p query ≡ true
unfolding covers
covers_complete [] query (some_path, at) = absurd (some_path refl)
covers_complete (c ∷ p) query (_, inl same) = ground (arith, same, text_eq_refl (c ∷ p))
covers_complete (c ∷ p) query (_, inr (rest, below)) =
    subst (λ q. covers (c ∷ p) q ≡ true) (sym below) (covers_below c p rest)

-- The test of the code holds exactly for the path itself and for a directory above it.
pub covers_iff : (p query : Text) → (covers p query ≡ true) ↔ IsAround p query
covers_iff p query = (covers_sound p query, covers_complete p query)

pub not-covers : (p query : Text) → covers p query ≡ false → ¬ IsAround p query
not-covers p query h around = let covered = covers_complete p query around in cc
