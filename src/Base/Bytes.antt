-- ===== src/Base/Bytes.antt =====
-- Texts as lists of bytes, as the C++ code walks them.
use Prim.Native.Nat.{ℕ, zero, suc, ◌≤◌}
use Prim.Native.Char.{code}
use Prim.Native.String.{String}
use mathlib.Core.Path.{◌≡◌, refl, ap, ap₂, sym, ◌∙◌}
use mathlib.Core.Logic.{inl, inr}
use mathlib.Core.Logic.{inl, inr}
use mathlib.Core.Bool.{Bool, true, false, ◌&&◌, ◌||◌, not}
use mathlib.Core.List.{List, [], ◌∷◌, ◌++◌}
use mathlib.Core.Option.{Option, none, some}
use native.Mathlib.Omega.{arith}
use crate.Base.Tests.{leb, ltb, ◌==◌, if◌then◌else◌, &&_elim, ==_iff, Option-cases, Bool-cases}
use crate.Base.Lists.{is_empty, any, all, length, drop}

abbrev pub Text : Type 0
Text = List ℕ

-- The bytes of an ASCII literal.
abbrev pub codes : String → Text
codes String.[] = []
codes (String.◌∷◌ c s) = code c ∷ codes s

-- `a == b` on std::string.
abbrev pub text_eq : Text → Text → Bool
text_eq [] [] = true
text_eq (a ∷ s) (b ∷ t) = a == b && text_eq s t
text_eq _ _ = false

pub text_eq→eq : (s t : Text) → text_eq s t ≡ true → s ≡ t
text_eq→eq [] [] h = refl
text_eq→eq [] (b ∷ t) h = cc
text_eq→eq (a ∷ s) [] h = cc
text_eq→eq (a ∷ s) (b ∷ t) h =
    let (p, q) = &&_elim (a == b) (text_eq s t) h in ap₂ ◌∷◌ ((==_iff a b).0 p) (text_eq→eq s t q)

pub text_eq_refl : (s : Text) → text_eq s s ≡ true
text_eq_refl [] = refl
text_eq_refl (a ∷ s) = ground (arith, text_eq_refl s)

-- `s.compare(0, p.size(), p) == 0` with `s.size() >= p.size()`.
abbrev pub starts_with : Text → Text → Bool
starts_with [] s = true
starts_with (a ∷ p) [] = false
starts_with (a ∷ p) (b ∷ s) = a == b && starts_with p s

pub starts_with-append : (p r : Text) → starts_with p (p ++ r) ≡ true
starts_with-append [] r = refl
starts_with-append (a ∷ p) r = ground (arith, starts_with-append p r)

pub starts_with→append : (p s : Text) → starts_with p s ≡ true → s ≡ p ++ drop (length p) s
starts_with→append [] s h = refl
starts_with→append (a ∷ p) [] h = cc
starts_with→append (a ∷ p) (b ∷ s) h =
    let (e, q) = &&_elim (a == b) (starts_with p s) h in
    ap₂ ◌∷◌ (sym ((==_iff a b).0 e)) (starts_with→append p s q)

-- `s.find(c) != npos`.
abbrev pub has : ℕ → Text → Bool
has c = any (λ b. b == c)

abbrev pub is_digit : ℕ → Bool
is_digit c = leb b'0' c && leb c b'9'

abbrev pub is_alnum : ℕ → Bool
is_alnum c = (leb b'a' c && leb c b'z') || ((leb b'A' c && leb c b'Z') || is_digit c)

-- The pieces between the separators, at least one: the loops that push `cur` at each separator and
-- once more at the end.
abbrev pub add_front : ℕ → List Text → List Text
add_front c [] = (c ∷ []) ∷ []
add_front c (p ∷ ps) = (c ∷ p) ∷ ps

abbrev pub split_on : ℕ → Text → List Text
split_on sep [] = [] ∷ []
split_on sep (c ∷ s) = let rest = split_on sep s in if c == sep then [] ∷ rest else add_front c rest

-- The text before and behind the first separator: `substr(0, pos)` and `substr(pos + 1)`.
abbrev pub cut_step : ℕ → Option (Text × Text) → Option (Text × Text)
cut_step c none = none
cut_step c (some (a, b)) = some (c ∷ a, b)

abbrev pub cut_at : ℕ → Text → Option (Text × Text)
cut_at sep [] = none
cut_at sep (c ∷ s) = let rest = cut_at sep s in if c == sep then some ([], s) else cut_step c rest

pub cut_at-append :
    (sep : ℕ) (a b : Text) → has sep a ≡ false → cut_at sep (a ++ sep ∷ b) ≡ some (a, b)
cut_at-append sep [] b h = ground arith
cut_at-append sep (c ∷ a) b h = ground (arith, cut_at-append sep a b)

pub cut_at-none : (sep : ℕ) (a : Text) → has sep a ≡ false → cut_at sep a ≡ none
cut_at-none sep [] h = refl
cut_at-none sep (c ∷ a) h = ground (arith, cut_at-none sep a)

-- What a cut returns are the two sides of the first separator.
pub cut_at_sound :
    (sep : ℕ) (s a b : Text) → cut_at sep s ≡ some (a, b) → (s ≡ a ++ sep ∷ b) × (has sep a ≡ false)
cut_at_sound sep [] a b h = cc
cut_at_sound sep (c ∷ s) a b h = elim (Option-cases (cut_at sep s)) [
  | inl e ↦ ground arith
  | inr (r, e) ↦ ground (arith, cut_at_sound sep s r.0 r.1 e)
]

pub split_on-piece : (sep : ℕ) (a : Text) → has sep a ≡ false → split_on sep a ≡ a ∷ []
split_on-piece sep [] h = refl
split_on-piece sep (c ∷ a) h = ground (arith, split_on-piece sep a)

pub split_on-append :
    (sep : ℕ) (a b : Text) → has sep a ≡ false → split_on sep (a ++ sep ∷ b) ≡ a ∷ split_on sep b
split_on-append sep [] b h = ground arith
split_on-append sep (c ∷ a) b h = ground (arith, split_on-append sep a b)

abbrev pub join : ℕ → List Text → Text
join sep [] = []
join sep (p ∷ []) = p
join sep (p ∷ q ∷ ps) = p ++ sep ∷ join sep (q ∷ ps)

is_empty-add_front : (c : ℕ) (ps : List Text) → is_empty (add_front c ps) ≡ false
is_empty-add_front c [] = refl
is_empty-add_front c (p ∷ ps) = refl

pub is_empty-split_on : (sep : ℕ) (s : Text) → is_empty (split_on sep s) ≡ false
is_empty-split_on sep [] = refl
is_empty-split_on sep (c ∷ s) = elim (Bool-cases (c == sep)) [
  | inl e ↦ rw e
  | inr e ↦ rw e (is_empty-add_front c (split_on sep s))
]

join-add_front :
    (sep c : ℕ) (ps : List Text) → is_empty ps ≡ false → join sep (add_front c ps) ≡ c ∷ join sep ps
join-add_front sep c [] h = cc
join-add_front sep c (p ∷ []) h = refl
join-add_front sep c (p ∷ q ∷ ps) h = refl

join-nil-front :
    (sep : ℕ) (ps : List Text) → is_empty ps ≡ false → join sep ([] ∷ ps) ≡ sep ∷ join sep ps
join-nil-front sep [] h = cc
join-nil-front sep (p ∷ ps) h = refl

-- Splitting loses nothing.
pub join-split_on : (sep : ℕ) (s : Text) → join sep (split_on sep s) ≡ s
join-split_on sep [] = refl
join-split_on sep (c ∷ s) =
    let full = is_empty-split_on sep s in
    let rest = join-split_on sep s in
    elim (Bool-cases (c == sep)) [
      | inl e ↦
          rw e (join-nil-front sep (split_on sep s) full ∙ ap₂ ◌∷◌ (sym ((==_iff c sep).0 e)) rest)
      | inr e ↦ rw e (join-add_front sep c (split_on sep s) full ∙ ap (◌∷◌ c) rest)
    ]

pub has-append : (c : ℕ) (s t : Text) → has c s ≡ false → has c t ≡ false → has c (s ++ t) ≡ false
has-append c [] t h k = k
has-append c (b ∷ s) t h k = ground (arith, has-append c s t)

-- `operator<` of std::string.
abbrev pub text_before : Text → Text → Bool
text_before [] [] = false
text_before [] (b ∷ t) = true
text_before (a ∷ s) [] = false
text_before (a ∷ s) (b ∷ t) =
    let rest = text_before s t in if ltb a b then true else if a == b then rest else false

-- The bytes in front that pass a test, at most `n`, and what follows: a loop
-- `while (i < size && k < n && p(s[i]))`.
abbrev pub cons_first : ℕ → Text × Text → Text × Text
cons_first c (a, b) = (c ∷ a, b)

unfoldable pub span_upto : (ℕ → Bool) → ℕ → Text → Text × Text
span_upto p zero s = ([], s)
span_upto p (suc n) [] = ([], [])
span_upto p (suc n) (c ∷ s) =
    let rest = span_upto p n s in if p c then cons_first c rest else ([], c ∷ s)

pub span_upto_sound :
    (p : ℕ → Bool) (n : ℕ) (s : Text)
    → (s ≡ (span_upto p n s).0 ++ (span_upto p n s).1)
      × (all p (span_upto p n s).0 ≡ true)
      × (length (span_upto p n s).0 ≤ n)
unfolding span_upto
span_upto_sound p zero s = (refl, refl, omega arith)
span_upto_sound p (suc n) [] = (refl, refl, omega arith)
span_upto_sound p (suc n) (c ∷ s) =
    let (same, tested, short) = span_upto_sound p n s in
    elim (Bool-cases (p c)) [
      | inl e ↦ (rw e (ap (◌∷◌ c) same), rw e (ground arith), rw e (omega arith))
      | inr e ↦ (rw e refl, rw e refl, rw e (omega arith))
    ]

abbrev pub stops : (ℕ → Bool) → Text → Bool
stops p [] = true
stops p (c ∷ s) = not (p c)

pub span_upto-append :
    (p : ℕ → Bool) (n : ℕ) (a b : Text)
    → all p a ≡ true
    → length a ≤ n
    → stops p b ≡ true
    → span_upto p n (a ++ b) ≡ (a, b)
unfolding span_upto
span_upto-append p zero [] b t l e = refl
span_upto-append p (suc n) [] [] t l e = refl
span_upto-append p (suc n) [] (c ∷ b) t l e = let f : p c ≡ false = ground arith in rw f refl
span_upto-append p zero (c ∷ a) b t l e = absurd (omega arith)
span_upto-append p (suc n) (c ∷ a) b t l e =
    let (tc, ta) = &&_elim (p c) (all p a) t in
    rw tc (ap (cons_first c) (span_upto-append p n a b ta (omega arith) e))
