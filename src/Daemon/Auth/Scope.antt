-- ===== src/Daemon/Auth/Scope.antt =====
-- Which paths a token's scope holds: `pathInScope` of lib/auth_pure.cpp.
use crate.Base.{
  &&_elim, Bool-cases, List, Text, [], any, ap, append-nil, append_assoc, ap₂, arith, codes, drop,
  drop-append, false, inl, inr, is_empty, leb, length, length-append, le→leb, ltb, ltb→lt, refl,
  starts_with, starts_with-append, starts_with→append, subst, suc, sym, take, take-append, text_eq,
  text_eq_refl, text_eq→eq, true, zero, ℕ, ◌&&◌, ◌++◌, ◌+◌, ◌-◌, ◌↔◌, ◌∙◌, ◌∷◌, ◌≡◌, ◌⊎◌,
}
use crate.Daemon.Auth.{ends_in_glob, pattern_allows, path_in_scope}

-- The path itself, or for `<dir>/*` something below `<dir>/`.
abbrev pub Matches : Text → Text → Type 0
Matches p path =
    ((dir : Text) × ((c : ℕ) × ((rest : Text) × (p ≡ dir ++ codes "/*")
          × (path ≡ dir ++ b'/' ∷ c ∷ rest))))
    ⊎ ((ends_in_glob p ≡ false) × (is_empty p ≡ false) × (path ≡ p))

abbrev pub AnyMatches : List Text → Text → Type 0
AnyMatches [] path = ⊥
AnyMatches (p ∷ ps) path = Matches p path ⊎ AnyMatches ps path

take-drop : (n : ℕ) (s : Text) → s ≡ take n s ++ drop n s
take-drop zero s = refl
take-drop (suc n) [] = refl
take-drop (suc n) (c ∷ s) = ap (◌∷◌ c) (take-drop n s)

slash_front : (dir t : Text) → (dir ++ b'/' ∷ []) ++ t ≡ dir ++ b'/' ∷ t
slash_front dir t = append_assoc dir (b'/' ∷ []) t

length_glob : (dir : Text) → length (dir ++ codes "/*") ≡ length dir + 2
length_glob dir = length-append dir (codes "/*")

-- The prefix of a glob with its slash.
take_glob :
    (dir : Text) → take (length (dir ++ codes "/*") - 1) (dir ++ codes "/*") ≡ dir ++ b'/' ∷ []
take_glob dir =
    let n : length (dir ++ codes "/*") - 1 ≡ length (dir ++ b'/' ∷ []) =
      omega (arith, length_glob dir, length-append dir (b'/' ∷ [])) in
    ap (λ (k : ℕ). take k (dir ++ codes "/*")) n
    ∙ ap (take (length (dir ++ b'/' ∷ []))) (sym (slash_front dir (b'*' ∷ [])))
    ∙ take-append (dir ++ b'/' ∷ []) (b'*' ∷ [])

glob_sound :
    (dir path : Text)
    → (ltb (length (dir ++ b'/' ∷ [])) (length path) && starts_with (dir ++ b'/' ∷ []) path) ≡ true
    → Matches (dir ++ codes "/*") path
glob_sound dir path h =
    let (longer, start) = &&_elim _ _ h in
    let whole = starts_with→append (dir ++ b'/' ∷ []) path start in
    below (drop (length (dir ++ b'/' ∷ [])) path) whole longer
  where
    below :
        (t : Text)
        → path ≡ (dir ++ b'/' ∷ []) ++ t
        → ltb (length (dir ++ b'/' ∷ [])) (length path) ≡ true
        → Matches (dir ++ codes "/*") path
    below [] whole longer =
        let short : length path ≡ length (dir ++ b'/' ∷ []) =
          ap length (whole ∙ append-nil (dir ++ b'/' ∷ [])) in
        absurd (omega (arith, ltb→lt _ _ longer, short))
    below (c ∷ rest) whole longer = inl (dir, (c, (rest, refl, whole ∙ slash_front dir (c ∷ rest))))

glob_complete :
    (dir rest : Text) (c : ℕ)
    → (ltb (length (dir ++ b'/' ∷ [])) (length (dir ++ b'/' ∷ c ∷ rest))
        && starts_with (dir ++ b'/' ∷ []) (dir ++ b'/' ∷ c ∷ rest))
      ≡ true
glob_complete dir rest c =
    let start : starts_with (dir ++ b'/' ∷ []) (dir ++ b'/' ∷ c ∷ rest) ≡ true =
      ap (starts_with (dir ++ b'/' ∷ [])) (sym (slash_front dir (c ∷ rest)))
      ∙ starts_with-append (dir ++ b'/' ∷ []) (c ∷ rest) in
    ground (arith, start, length-append dir (b'/' ∷ []), length-append dir (b'/' ∷ c ∷ rest))

ends_in_glob-append : (dir : Text) → ends_in_glob (dir ++ codes "/*") ≡ true
ends_in_glob-append dir =
    let n : length (dir ++ codes "/*") - 2 ≡ length dir = omega (arith, length_glob dir) in
    let end : drop (length (dir ++ codes "/*") - 2) (dir ++ codes "/*") ≡ codes "/*" =
      ap (λ (k : ℕ). drop k (dir ++ codes "/*")) n ∙ drop-append dir (codes "/*") in
    let long : leb 2 (length (dir ++ codes "/*")) ≡ true =
      le→leb 2 (length (dir ++ codes "/*")) (omega (arith, length_glob dir)) in
    ap₂ ◌&&◌ long (ap (λ t. text_eq t (codes "/*")) end)

glob_parts : (p : Text) → ends_in_glob p ≡ true → p ≡ take (length p - 2) p ++ codes "/*"
glob_parts p h =
    let (long, end) = &&_elim _ _ h in
    take-drop (length p - 2) p ∙ ap (◌++◌ (take (length p - 2) p)) (text_eq→eq _ _ end)

pattern_allows-glob :
    (dir path : Text)
    → pattern_allows (dir ++ codes "/*") path
      ≡ (ltb (length (dir ++ b'/' ∷ [])) (length path) && starts_with (dir ++ b'/' ∷ []) path)
unfolding pattern_allows
pattern_allows-glob dir path =
    let full : is_empty (dir ++ codes "/*") ≡ false = not_empty dir in
    rw (full, ends_in_glob-append dir) (rw (take_glob dir) refl)
  where
    not_empty : (s : Text) → is_empty (s ++ codes "/*") ≡ false
    not_empty [] = refl
    not_empty (c ∷ s) = refl

pattern_iff : (p path : Text) → (pattern_allows p path ≡ true) ↔ Matches p path
unfolding pattern_allows
pattern_iff p path = (sound, complete)
  where
    sound : pattern_allows p path ≡ true → Matches p path
    sound h = elim (Bool-cases (ends_in_glob p)) [
      | inl glob ↦
          let dir = take (length p - 2) p in
          let eq = glob_parts p glob in
          subst (λ q. Matches q path) (sym eq)
            (glob_sound dir path
              (sym (pattern_allows-glob dir path) ∙ ap (λ q. pattern_allows q path) (sym eq) ∙ h))
      | inr plain ↦
          let full : is_empty p ≡ false = ground (arith, h) in
          inr (plain, full, text_eq→eq path p (rw (full, plain) at h))
    ]

    complete : Matches p path → pattern_allows p path ≡ true
    complete (inl (dir, (c, (rest, eq, below)))) =
        ap₂ pattern_allows eq below
        ∙ pattern_allows-glob dir (dir ++ b'/' ∷ c ∷ rest)
        ∙ glob_complete dir rest c
    complete (inr (plain, full, same)) = rw (full, plain) (rw same (text_eq_refl p))

-- A path is in a scope exactly if the scope is empty, or a pattern of the scope is the path, or is
-- `<dir>/*` and the path is something below `<dir>/`.
pub path_in_scope_iff :
    (scope : List Text) (path : Text)
    → (path_in_scope scope path ≡ true) ↔ ((scope ≡ []) ⊎ AnyMatches scope path)
unfolding path_in_scope
path_in_scope_iff [] path = (λ h. inl refl, λ h. refl)
path_in_scope_iff (p ∷ ps) path = (
  λ h. inr (sound (p ∷ ps) h),
  λ m. elim m [ inl e ↦ cc | inr some_match ↦ complete (p ∷ ps) some_match ],
)
  where
    sound : (ps : List Text) → any (λ p. pattern_allows p path) ps ≡ true → AnyMatches ps path
    sound [] h = cc
    sound (p ∷ ps) h = elim (Bool-cases (pattern_allows p path)) [
      | inl yes_here ↦ inl ((pattern_iff p path).0 yes_here)
      | inr other ↦ inr (sound ps (rw other at h))
    ]

    complete : (ps : List Text) → AnyMatches ps path → any (λ p. pattern_allows p path) ps ≡ true
    complete [] m = absurd m
    complete (p ∷ ps) (inl m) = ground (arith, (pattern_iff p path).1 m)
    complete (p ∷ ps) (inr m) = ground (arith, complete ps m)
