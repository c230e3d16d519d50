-- ===== src/Privops/Fields/Names.antt =====
-- Chains of checks against what they check, and the jail names and rule texts that pass.
use crate.Base.{
  &&_elim, All, Bool, Bool-cases, Text, [], all, any, ap, ap₂, arith, codes, err, fail_if, false,
  inl, inr, is_empty, length, ltb, not, ok, refl, sym, text_eq, text_eq_refl, text_eq→eq, true, ℕ,
  ◌&&◌, ◌==◌, ◌>>◌, ◌||◌, ◌↔◌, ◌∙◌, ◌∷◌, ◌≡◌, ◌≢◌,
}
use crate.Privops.Fields.{
  Check, FieldError, is_name_byte, validate_jail_name, empty_jail_name, long_jail_name,
  reserved_jail_name, bad_jail_name_char, k_kernel_jail_name, rule_loop, validate_rule_text,
  many_lines, meta_rule, empty_rule, long_rule,
}
use crate.Privops.Fields.Shapes.{IsNameByte, IsJailName, NoneOf, IsPlain}

pub passes_iff : (b : Bool) (e : FieldError) → (fail_if b e ≡ ok tt) ↔ (b ≡ false)
passes_iff true e = (λ h. cc, λ h. cc)
passes_iff false e = (λ h. refl, λ h. refl)

pub then_iff : (first next : Check) → ((first >> next) ≡ ok tt) ↔ ((first ≡ ok tt) × (next ≡ ok tt))
then_iff (err e) next = (λ h. cc, λ h. absurd (not_ok e h.0))
  where
    not_ok : (e : FieldError) → ◌≡◌ {A = Check} (err e) (ok tt) → ⊥
    not_ok e h = cc
then_iff (ok u) next = (λ h. (refl, h), λ h. h.1)

-- A chain that starts with a test.
pub test_iff :
    (b : Bool) (e : FieldError) (next : Check)
    → ((fail_if b e >> next) ≡ ok tt) ↔ ((b ≡ false) × (next ≡ ok tt))
test_iff true e next = (λ h. cc, λ h. absurd (true-not h.0))
  where
    true-not : ◌≡◌ {A = Bool} true false → ⊥
    true-not h = cc
test_iff false e next = (λ h. (refl, h), λ h. h.1)

pub all_iff :
    (p : ℕ → Bool) (P : ℕ → Type 0)
    → ((c : ℕ) → (p c ≡ true) ↔ P c)
    → (s : Text) → (all p s ≡ true) ↔ All P s
all_iff p P each [] = (λ h. tt, λ h. refl)
all_iff p P each (c ∷ s) =
    let (sound, complete) = all_iff p P each s in
    (
      (λ h. let (here, later) = &&_elim (p c) (all p s) h in ((each c).0 here, sound later)),
      (λ h. ap₂ ◌&&◌ ((each c).1 h.0) (complete h.1)),
    )

pub not-all_iff :
    (p : ℕ → Bool) (P : ℕ → Type 0)
    → ((c : ℕ) → (p c ≡ true) ↔ P c)
    → (s : Text) → (not (all p s) ≡ false) ↔ All P s
not-all_iff p P each s =
    let (sound, complete) = all_iff p P each s in
    ((λ h. sound (ground (arith, h))), (λ h. ap not (complete h)))

pub any-false_iff :
    (p : ℕ → Bool) (P : ℕ → Type 0)
    → ((c : ℕ) → (p c ≡ false) ↔ P c)
    → (s : Text) → (any p s ≡ false) ↔ All P s
any-false_iff p P each [] = (λ h. tt, λ h. refl)
any-false_iff p P each (c ∷ s) =
    let (sound, complete) = any-false_iff p P each s in
    (
      (λ h. let (here, later) = ||-false (p c) (any p s) h in ((each c).0 here, sound later)),
      (λ h. ap₂ ◌||◌ ((each c).1 h.0) (complete h.1)),
    )
  where
    ||-false : (a b : Bool) → (a || b) ≡ false → (a ≡ false) × (b ≡ false)
    ||-false a b h = ground (arith, h)

pub is_empty_iff : (s : Text) → (is_empty s ≡ false) ↔ (s ≢ [])
is_empty_iff [] = (λ h. cc, λ h. absurd (h refl))
is_empty_iff (c ∷ s) = (λ h e. cc, λ h. refl)

text_eq-false_iff : (s t : Text) → (text_eq s t ≡ false) ↔ (s ≢ t)
text_eq-false_iff s t = (
  (λ h e. let same = ap (text_eq s) (sym e) ∙ text_eq_refl s in cc),
  (λ h. elim (Bool-cases (text_eq s t)) [
    | inl same ↦ absurd (h (text_eq→eq s t same))
    | inr other ↦ other
  ]),
)

is_name_byte_iff : (c : ℕ) → (is_name_byte c ≡ true) ↔ IsNameByte c
is_name_byte_iff c = ground arith

pub validate_jail_name_iff : (s : Text) → (validate_jail_name s ≡ ok tt) ↔ IsJailName s
unfolding validate_jail_name
validate_jail_name_iff s = (
  (λ h.
      let (filled, h₁) = (test_iff (is_empty s) empty_jail_name _).0 h in
      let (short, h₂) = (test_iff (ltb k_kernel_jail_name (length s)) long_jail_name _).0 h₁ in
      let (free, h₃) =
        (test_iff (text_eq s (codes ".") || text_eq s (codes "..")) reserved_jail_name _).0 h₂ in
      let bytes = (passes_iff (not (all is_name_byte s)) bad_jail_name_char).0 h₃ in
      (
        (is_empty_iff s).0 filled,
        ground (arith, short),
        (text_eq-false_iff s (codes ".")).0 (ground (arith, free)),
        (text_eq-false_iff s (codes "..")).0 (ground (arith, free)),
        (not-all_iff is_name_byte IsNameByte is_name_byte_iff s).0 bytes,
      )),
  (λ h.
      let (filled, short, dot, dots, bytes) = h in
      (test_iff (is_empty s) empty_jail_name _).1 (
        (is_empty_iff s).1 filled,
        (test_iff (ltb k_kernel_jail_name (length s)) long_jail_name _).1 (
          ground (arith, short),
          (test_iff (text_eq s (codes ".") || text_eq s (codes "..")) reserved_jail_name _).1 (
            ap₂ ◌||◌ ((text_eq-false_iff s (codes ".")).1 dot)
                ((text_eq-false_iff s (codes "..")).1 dots),
            (passes_iff (not (all is_name_byte s)) bad_jail_name_char).1
                ((not-all_iff is_name_byte IsNameByte is_name_byte_iff s).1 bytes),
          ),
        ),
      )),
)

==-false_iff : (a b : ℕ) → ((a == b) ≡ false) ↔ (a ≢ b)
==-false_iff a b = ground arith

-- A byte that is none of the marks.
pub no_mark_iff :
    (marks : Text) (c : ℕ) → (any (λ m. c == m) marks ≡ false) ↔ All (λ m. c ≢ m) marks
no_mark_iff marks c = any-false_iff (λ m. c == m) (λ m. c ≢ m) (==-false_iff c) marks

rule_loop_iff : (s : Text) → (rule_loop s ≡ ok tt) ↔ NoneOf (codes "\n\r`$;\\") s
unfolding rule_loop
rule_loop_iff [] = (λ h. tt, λ h. refl)
rule_loop_iff (c ∷ s) =
    let (sound, complete) = rule_loop_iff s in
    (
      (λ h.
          let (line, h₁) = (test_iff (c == 10 || c == 13) many_lines _).0 h in
          let (plain, h₂) =
            (test_iff (c == b'`' || (c == b'$' || (c == b';' || c == 92))) meta_rule _).0 h₁ in
          ((no_mark_iff (codes "\n\r`$;\\") c).0 (ground (arith, line, plain)), sound h₂)),
      (λ h.
          let marks = (no_mark_iff (codes "\n\r`$;\\") c).1 h.0 in
          (test_iff (c == 10 || c == 13) many_lines _).1 (
            ground (arith, marks),
            (test_iff (c == b'`' || (c == b'$' || (c == b';' || c == 92))) meta_rule _).1
                (ground (arith, marks), complete h.1),
          )),
    )

pub validate_rule_text_iff : (s : Text) → (validate_rule_text s ≡ ok tt) ↔ ((s ≢ []) × IsPlain s)
unfolding validate_rule_text
validate_rule_text_iff s = (
  (λ h.
      let (filled, h₁) = (test_iff (is_empty s) empty_rule _).0 h in
      let (short, h₂) = (test_iff (ltb 1024 (length s)) long_rule _).0 h₁ in
      ((is_empty_iff s).0 filled, (ground (arith, short), (rule_loop_iff s).0 h₂))),
  (λ h. (test_iff (is_empty s) empty_rule _).1 (
    (is_empty_iff s).1 h.0,
    (test_iff (ltb 1024 (length s)) long_rule _).1 (ground (arith, h.1), (rule_loop_iff s).1 h.1.1),
  )),
)
