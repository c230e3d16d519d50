-- ===== src/Privops/CreateJail/Tokens.antt =====
-- The parameter list as a whole: cutting it at blanks and checking each token accepts exactly the
-- lists described in Privops.CreateJail.Language.
use crate.Base.{
  >>=-eq-ok, Bool-cases, List, Text, [], add_front, ap, append_assoc, false, inl, inr, is_empty, ok,
  refl, subst, sym, ℕ, ◌++◌, ◌>>◌, ◌↔◌, ◌∙◌, ◌∷◌, ◌≡◌,
}
use crate.Privops.CreateJail.{check_token, check_tokens, tokens, split_spaces, is_space}
use crate.Privops.CreateJail.Language.{
  IsBlank, NoBlank, EndsToken, IsParamList, nothing, blank, param,
}
use crate.Privops.CreateJail.Values.{is_space_iff}
use crate.Privops.CreateJail.Params.{check_token_sound, check_token_complete, check_token-filled}

not-blank : (c : ℕ) → (¬ IsBlank c) → is_space c ≡ false
not-blank c h = elim (Bool-cases (is_space c)) [
  | inl space ↦ absurd (h ((is_space_iff c).0 space))
  | inr other ↦ other
]

split-word :
    (w rest : Text) (ps : List Text)
    → NoBlank w
    → split_spaces rest ≡ [] ∷ ps
    → split_spaces (w ++ rest) ≡ w ∷ ps
split-word [] rest ps plain h = h
split-word (c ∷ w) rest ps plain h =
    rw (not-blank c plain.0) (ap (add_front c) (split-word w rest ps plain.1 h))

split-ends : (rest : Text) → EndsToken rest → (ps : List Text) × (split_spaces rest ≡ [] ∷ ps)
split-ends rest (inl end) = ([], ap split_spaces end)
split-ends rest (inr (c, (s, at, space))) =
    (split_spaces s, ap split_spaces at ∙ rw ((is_space_iff c).1 space) refl)

tokens-word :
    (w rest : Text)
    → is_empty w ≡ false
    → NoBlank w
    → EndsToken rest
    → tokens (w ++ rest) ≡ w ∷ tokens rest
unfolding tokens
tokens-word w rest filled plain ends =
    let (ps, cut) = split-ends rest ends in
    rw (split-word w rest ps plain cut) (rw filled (rw cut refl))

tokens-blank : (c : ℕ) (s : Text) → IsBlank c → tokens (c ∷ s) ≡ tokens s
unfolding tokens
tokens-blank c s space = rw ((is_space_iff c).1 space) refl

pub params_complete : {s : Text} → IsParamList s → check_tokens (tokens s) ≡ ok tt
unfolding check_tokens tokens
params_complete nothing = refl
params_complete (blank {c} {s} space l) =
    ap check_tokens (tokens-blank c s space) ∙ params_complete l
params_complete (param {key} {val} {rest} p plain ends l) =
    let good = check_token_complete key val p in
    ap check_tokens (tokens-word (key ++ b'=' ∷ val) rest (check_token-filled _ good) plain ends)
    ∙ ap (λ r. r >> check_tokens (tokens rest)) good
    ∙ params_complete l

NoBlank-snoc : (w : Text) (c : ℕ) → NoBlank w → (¬ IsBlank c) → NoBlank (w ++ c ∷ [])
NoBlank-snoc [] c h last = (last, tt)
NoBlank-snoc (b ∷ w) c h last = (h.0, NoBlank-snoc w c h.1 last)

accepted-param :
    (tok rest : Text)
    → check_token tok ≡ ok tt
    → NoBlank tok
    → EndsToken rest
    → IsParamList rest
    → IsParamList (tok ++ rest)
accepted-param tok rest good plain ends l =
    let (key, val, at, p) = check_token_sound tok good in
    subst (λ t. IsParamList (t ++ rest)) (sym at) (param p (subst NoBlank at plain) ends l)

-- A blank closes the open token `w`.
closed_token :
    (w : Text) (c : ℕ) (s : Text)
    → NoBlank w
    → IsBlank c
    → (check_tokens (tokens s) ≡ ok tt → IsParamList s)
    → check_tokens (tokens (w ++ c ∷ s)) ≡ ok tt
    → IsParamList (w ++ c ∷ s)
unfolding check_tokens
closed_token [] c s plain space later h =
    blank space (later (sym (ap check_tokens (tokens-blank c s space)) ∙ h))
closed_token (b ∷ w) c s plain space later h =
    let ends : EndsToken (c ∷ s) = inr (c, (s, refl, space)) in
    let (_, good, rest) =
      >>=-eq-ok (check_token (b ∷ w)) (λ _. check_tokens (tokens (c ∷ s)))
        (sym (ap check_tokens (tokens-word (b ∷ w) (c ∷ s) refl plain ends)) ∙ h) in
    accepted-param (b ∷ w) (c ∷ s) good plain ends
      (blank space (later (sym (ap check_tokens (tokens-blank c s space)) ∙ rest)))

-- The text from a token `w` on that is still open.
open_token :
    (w s : Text) → NoBlank w → check_tokens (tokens (w ++ s)) ≡ ok tt → IsParamList (w ++ s)
unfolding check_tokens
open_token [] [] plain h = nothing
open_token (b ∷ w) [] plain h =
    let ends : EndsToken [] = inl refl in
    let (_, good, _) =
      >>=-eq-ok (check_token (b ∷ w)) (λ _. check_tokens (tokens []))
        (sym (ap check_tokens (tokens-word (b ∷ w) [] refl plain ends)) ∙ h) in
    accepted-param (b ∷ w) [] good plain ends nothing
open_token w (c ∷ s) plain h = elim (Bool-cases (is_space c)) [
  | inl space ↦ closed_token w c s plain ((is_space_iff c).0 space) (open_token [] s tt) h
  | inr other ↦ subst IsParamList (append_assoc w (c ∷ []) s) (
      open_token (w ++ c ∷ []) s
        (NoBlank-snoc w c plain (λ space. let marked = (is_space_iff c).1 space in cc))
        (ap (λ t. check_tokens (tokens t)) (append_assoc w (c ∷ []) s) ∙ h))
]

-- The tokens of a text pass the checks exactly if the text is a list of parameters.
pub params_iff : (s : Text) → (check_tokens (tokens s) ≡ ok tt) ↔ IsParamList s
params_iff s = (open_token [] s tt, params_complete)
