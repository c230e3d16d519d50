-- ===== src/Privops/Fields/Paths.antt =====
-- The absolute paths that the validator accepts are those described.
use crate.Base.{
  All, Bool, Bool-cases, List, Text, [], add_front, any, ap, append-nil, append_assoc, arith, codes,
  drop, drop_open, false, has, has-append, head_or, if◌then◌else◌, inl, inr, length, ltb, not, ok,
  refl, split_on, split_on-append, split_on-piece, subst, sym, text_eq, text_eq→eq, true, ℕ,
  ℕ_discrete, ◌++◌, ◌==◌, ◌||◌, ◌↔◌, ◌∙◌, ◌∷◌, ◌≡◌, ◌≢◌, ◌⊎◌,
}
use crate.Privops.Fields.{
  is_shell_meta, has_dot_dot_segment, validate_absolute_path, long_path, relative_path,
  dot_dot_path, meta_path,
}
use crate.Privops.Fields.Shapes.{HasUp, IsSafePath, NoneOf}
use crate.Privops.Fields.Names.{test_iff, passes_iff, any-false_iff, no_mark_iff}

abbrev is_up : Text → Bool
is_up s = text_eq s (codes "..")

drop_open-any : (ps : List Text) → any is_up (drop_open ps) ≡ any is_up ps
drop_open-any [] = refl
drop_open-any ([] ∷ []) = refl
drop_open-any ((c ∷ p) ∷ []) = refl
drop_open-any (p ∷ q ∷ ps) = ap (◌||◌ (is_up p)) (drop_open-any (q ∷ ps))

HasUp-behind : (w p : Text) → HasUp p → HasUp (w ++ p)
HasUp-behind w p (front, back, at, ends) =
    (w ++ front, back, ap (◌++◌ w) at ∙ sym (append_assoc w front (codes "/.." ++ back)), ends)

-- A slash closes the open segment `w`.
closed_segment :
    (w s : Text)
    → has 47 w ≡ false
    → (any is_up (split_on 47 s) ≡ true → HasUp (47 ∷ s))
    → any is_up (split_on 47 (w ++ 47 ∷ s)) ≡ true
    → HasUp (47 ∷ (w ++ 47 ∷ s))
closed_segment w s plain later h =
    let cut : (is_up w || any is_up (split_on 47 s)) ≡ true =
      sym (ap (any is_up) (split_on-append 47 w s plain)) ∙ h in
    elim (Bool-cases (is_up w)) [
      | inl up ↦
          ([], 47 ∷ s, ap (λ t. 47 ∷ (t ++ 47 ∷ s)) (text_eq→eq w (codes "..") up), inr (s, refl))
      | inr other ↦ HasUp-behind (47 ∷ w) (47 ∷ s) (later (ground (arith, cut, other)))
    ]

-- The segments behind a slash, of which the first begins with `w`.
up_sound :
    (w s : Text)
    → has 47 w ≡ false
    → any is_up (split_on 47 (w ++ s)) ≡ true
    → HasUp (47 ∷ (w ++ s))
up_sound w [] plain h =
    let piece = ap (split_on 47) (append-nil w) ∙ split_on-piece 47 w plain in
    let up : is_up w ≡ true = ground (arith, sym (ap (any is_up) piece) ∙ h) in
    ([], [], ap (◌∷◌ 47) (append-nil w ∙ text_eq→eq w (codes "..") up), inl refl)
up_sound w (c ∷ s) plain h = elim (ℕ_discrete c 47) [
  | yes slash ↦
      subst (λ b. HasUp (47 ∷ (w ++ b ∷ s))) (sym slash)
        (closed_segment w s plain (up_sound [] s refl)
          (subst (λ b. any is_up (split_on 47 (w ++ b ∷ s)) ≡ true) slash h))
  | no other ↦
      subst (λ t. HasUp (47 ∷ t)) (append_assoc w (c ∷ []) s)
        (up_sound (w ++ c ∷ []) s (has-append 47 w (c ∷ []) plain (ground (arith, other)))
          (ap (λ t. any is_up (split_on 47 t)) (append_assoc w (c ∷ []) s) ∙ h))
]

drop-add_front : (c : ℕ) (ps : List Text) → drop 1 (add_front c ps) ≡ drop 1 ps
drop-add_front c [] = refl
drop-add_front c (p ∷ ps) = refl

any-drop : (ps : List Text) → any is_up (drop 1 ps) ≡ true → any is_up ps ≡ true
any-drop [] h = h
any-drop (p ∷ ps) h = ground (arith, h)

behind_byte :
    (slash : Bool) (c : ℕ) (ps : List Text)
    → any is_up (drop 1 ps) ≡ true
    → any is_up (drop 1 (if slash then [] ∷ ps else add_front c ps)) ≡ true
behind_byte true c ps h = any-drop ps h
behind_byte false c ps h = ap (any is_up) (drop-add_front c ps) ∙ h

-- A segment behind a slash is a segment of the whole, and not the first.
later_any :
    (a b : Text)
    → any is_up (split_on 47 b) ≡ true
    → any is_up (drop 1 (split_on 47 (a ++ 47 ∷ b))) ≡ true
later_any [] b h = h
later_any (c ∷ a) b h = behind_byte (c == 47) c (split_on 47 (a ++ 47 ∷ b)) (later_any a b h)

up_first :
    (back : Text)
    → ((back ≡ []) ⊎ ((rest : Text) × (back ≡ 47 ∷ rest)))
    → any is_up (split_on 47 (codes ".." ++ back)) ≡ true
up_first back (inl end) = ap (λ t. any is_up (split_on 47 (codes ".." ++ t))) end
up_first back (inr (rest, slash)) =
    ap (λ t. any is_up (split_on 47 (codes ".." ++ t))) slash
    ∙ ap (any is_up) (split_on-append 47 (codes "..") rest refl)

up_complete : (p : Text) → HasUp p → any is_up (split_on 47 p) ≡ true
up_complete p (front, back, at, ends) =
    ap (λ t. any is_up (split_on 47 t)) at
    ∙ any-drop (split_on 47 (front ++ (codes "/.." ++ back)))
        (later_any front (codes ".." ++ back) (up_first back ends))

-- On an absolute path the test finds a segment `..` exactly if there is one.
has_dot_dot_segment_iff :
    (rest : Text) → (has_dot_dot_segment (47 ∷ rest) ≡ false) ↔ (¬ HasUp (47 ∷ rest))
unfolding has_dot_dot_segment
has_dot_dot_segment_iff rest =
    let whole = drop_open-any (split_on 47 (47 ∷ rest)) in
    (
      (λ h up. let found = whole ∙ up_complete (47 ∷ rest) up in cc),
      (λ h. elim (Bool-cases (any is_up (drop_open (split_on 47 (47 ∷ rest))))) [
        | inl found ↦ absurd (h (up_sound [] rest refl (sym whole ∙ found)))
        | inr other ↦ other
      ]),
    )

metas_iff : (s : Text) → (any is_shell_meta s ≡ false) ↔ NoneOf (codes ";`$|&<>\\\n\r*?\"'") s
metas_iff s =
    any-false_iff is_shell_meta (λ c. All (λ m. c ≢ m) (codes ";`$|&<>\\\n\r*?\"'"))
      (no_mark_iff (codes ";`$|&<>\\\n\r*?\"'")) s

pub validate_absolute_path_iff : (p : Text) → (validate_absolute_path p ≡ ok tt) ↔ IsSafePath p
unfolding validate_absolute_path
validate_absolute_path_iff [] = (λ h. cc, λ h. let (rest, at) = h.0 in cc)
validate_absolute_path_iff (c ∷ s) = (
  (λ h.
      let (short, h₁) = (test_iff (ltb 1024 (length (c ∷ s))) long_path _).0 h in
      let (rooted, h₂) = (test_iff (not (c == b'/')) relative_path _).0 h₁ in
      let (inside, h₃) = (test_iff (has_dot_dot_segment (c ∷ s)) dot_dot_path _).0 h₂ in
      let plain = (passes_iff (any is_shell_meta (c ∷ s)) meta_path).0 h₃ in
      let root : c ≡ 47 = ground (arith, rooted) in
      (
        (s, ap (λ b. b ∷ s) root),
        ground (arith, short),
        subst (λ b. ¬ HasUp (b ∷ s)) (sym root)
            ((has_dot_dot_segment_iff s).0
              (subst (λ b. has_dot_dot_segment (b ∷ s) ≡ false) root inside)),
        (metas_iff (c ∷ s)).0 plain,
      )),
  (λ h.
      let ((rest, at), short, inside, plain) = h in
      let root : c ≡ 47 = ap (head_or 0) at in
      (test_iff (ltb 1024 (length (c ∷ s))) long_path _).1 (
        ground (arith, short),
        (test_iff (not (c == b'/')) relative_path _).1 (
          ground (arith, root),
          (test_iff (has_dot_dot_segment (c ∷ s)) dot_dot_path _).1 (
            subst (λ b. has_dot_dot_segment (b ∷ s) ≡ false) (sym root)
                ((has_dot_dot_segment_iff s).1 (subst (λ b. ¬ HasUp (b ∷ s)) root inside)),
            (passes_iff (any is_shell_meta (c ∷ s)) meta_path).1 ((metas_iff (c ∷ s)).1 plain),
          ),
        ),
      )),
)
