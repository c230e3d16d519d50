-- ===== src/Net/Syntax/Reads.antt =====
-- The loop of `isV6`: what it reads is groups with colons between them and at most one gap.
use crate.Base.{
  ==_iff, Bool, Bool-cases, List, Text, [], all, ap, append-nil, append_assoc, arith, false,
  head_or, inl, inr, is_empty, join, leb, length, not, refl, some, span_upto, span_upto_sound,
  subst, suc, sym, true, zero, ℕ, ◌&&◌, ◌++◌, ◌+◌, ◌==◌, ◌∙◌, ◌∷◌, ◌≡◌, ◌≤◌, ◌⊎◌,
}
use crate.Net.Syntax.{V6State, is_hex, ends_group, colon_step, group_step, v6_loop}

abbrev pub is_group : Text → Bool
is_group g = not (is_empty g) && (leb (length g) 4 && all is_hex g)

-- Groups with a colon in front of each, and with colons between them.
unfoldable pub tails : List Text → Text
tails [] = []
tails (g ∷ gs) = b':' ∷ (g ++ tails gs)

unfoldable pub body : Bool → List Text → Text
unfolding tails
body true gs = tails gs
body false [] = []
body false (g ∷ gs) = g ++ tails gs

pub body-join : (gs : List Text) → body false gs ≡ join b':' gs
unfolding body tails
body-join [] = refl
body-join (g ∷ []) = append-nil g
body-join (g ∷ h ∷ gs) = ap (λ t. g ++ (b':' ∷ t)) (body-join (h ∷ gs))

-- What may follow the groups: nothing, or the gap and more groups.
pub data Ending (saw out : Bool) (t : Text) (k : ℕ) : Type 0 where
  same : saw ≡ out → t ≡ [] → k ≡ 0 → Ending saw out t k
  gap :
      (gs : List Text)
      → saw ≡ false
      → out ≡ true
      → all is_group gs ≡ true
      → t ≡ b':' ∷ b':' ∷ body false gs
      → k ≡ length gs
      → Ending saw out t k

pub record Parsed (saw prev : Bool) (s : Text) (groups : ℕ) (out : Bool) (n : ℕ) : Type 0 where
  pub front : List Text
  pub rest : Text
  pub more : ℕ
  pub good : all is_group front ≡ true
  pub text : s ≡ body prev front ++ rest
  pub ending : Ending saw out rest more
  pub count : n ≡ groups + length front + more

pub body-nil : (prev : Bool) → body prev [] ≡ []
unfolding body tails
body-nil true = refl
body-nil false = refl

Parsed-nil : (saw prev : Bool) (groups : ℕ) → Parsed saw prev [] groups saw groups
Parsed-nil saw prev groups = record {
  front = [];
  rest = [];
  more = 0;
  good = refl;
  text = sym (ap (λ t. t ++ []) (body-nil prev));
  ending = same refl refl refl;
  count = omega arith;
}

-- A separator is in front of a group.
sep_text :
    (d : ℕ) (t : Text) (saw out : Bool) (front : List Text) (rest : Text) (more : ℕ)
    → (d == b':') ≡ false
    → Ending saw out rest more
    → (d ∷ t) ≡ body false front ++ rest
    → (b':' ∷ d ∷ t) ≡ body true front ++ rest
unfolding body tails
sep_text d t saw out (g ∷ gs) rest more other end e = ap (◌∷◌ b':') e
sep_text d t saw out [] rest more other (same _ gone _) e = cc
sep_text d t saw out [] rest more other (gap gs _ _ _ at _) e =
    let clash : d ≡ b':' = ap (head_or 0) (e ∙ at) in absurd (ground arith)

some-pair :
    {a b : Bool} {m n : ℕ} → ◌≡◌ {A = V6State} (some (a, m)) (some (b, n)) → (a ≡ b) × (m ≡ n)
some-pair h = (cc, cc)

group_step-some :
    (next : Text → Bool → Bool → ℕ → V6State) (x : Text × Text) (saw : Bool) (groups : ℕ)
    (r : Bool × ℕ)
    → group_step next x saw groups ≡ some r
    → (is_empty x.0 ≡ false) × (ends_group x.1 ≡ true) × (next x.1 saw true (suc groups) ≡ some r)
group_step-some next (digits, rest) saw groups r h = ground arith

colon_step-some :
    (next : Text → Bool → Bool → ℕ → V6State) (d : ℕ) (t : Text) (saw prev : Bool) (groups : ℕ)
    (r : Bool × ℕ)
    → colon_step next (d ∷ t) saw prev groups ≡ some r
    → (((d == b':') ≡ true) × (saw ≡ false) × (next t true false groups ≡ some r))
      ⊎ (((d == b':') ≡ false) × (prev ≡ true) × (next (d ∷ t) saw false groups ≡ some r))
colon_step-some next d t saw prev groups r h = ground arith

group_front :
    (g : Text) (gs : List Text)
    → is_empty g ≡ false
    → length g ≤ 4
    → all is_hex g ≡ true
    → all is_group gs ≡ true
    → all is_group (g ∷ gs) ≡ true
group_front g gs full short hex good = ground arith

-- The steps, for a loop that parses what is left.
module _ (next : Text → Bool → Bool → ℕ → V6State)
    (next_sound : (s : Text) (saw prev : Bool) (groups : ℕ) (out : Bool) (n : ℕ)
      → (prev ≡ true → ends_group s ≡ true)
      → next s saw prev groups ≡ some (out, n)
      → Parsed saw prev s groups out n) where
  gap_sound :
      (t : Text) (prev : Bool) (groups : ℕ) (out : Bool) (n : ℕ)
      → next t true false groups ≡ some (out, n)
      → Parsed false prev (b':' ∷ b':' ∷ t) groups out n
  gap_sound t prev groups out n h =
      let p = next_sound t true false groups out n (λ e. cc) h in
      elim p.ending [
        | same seen none_left no_more ↦ record {
          front = [];
          rest = b':' ∷ b':' ∷ t;
          more = length p.front;
          good = refl;
          text = sym (ap (λ u. u ++ b':' ∷ b':' ∷ t) (body-nil prev));
          ending =
              gap p.front refl (sym seen) p.good
                (ap (λ u. b':' ∷ b':' ∷ u)
                  (p.text
                    ∙ ap (λ r. body false p.front ++ r) none_left
                    ∙ append-nil (body false p.front)))
                refl;
          count = omega (arith, p.count);
        }
        | gap gs unseen _ _ _ _ ↦ cc
      ]

  sep_sound :
      (d : ℕ) (t : Text) (saw : Bool) (groups : ℕ) (out : Bool) (n : ℕ)
      → (d == b':') ≡ false
      → next (d ∷ t) saw false groups ≡ some (out, n)
      → Parsed saw true (b':' ∷ d ∷ t) groups out n
  sep_sound d t saw groups out n other h =
      let p = next_sound (d ∷ t) saw false groups out n (λ e. cc) h in
      record {
        front = p.front;
        rest = p.rest;
        more = p.more;
        good = p.good;
        text = sep_text d t saw out p.front p.rest p.more other p.ending p.text;
        ending = p.ending;
        count = p.count;
      }

  colon_sound :
      (s : Text) (saw prev : Bool) (groups : ℕ) (out : Bool) (n : ℕ)
      → colon_step next s saw prev groups ≡ some (out, n)
      → Parsed saw prev (b':' ∷ s) groups out n
  colon_sound [] saw prev groups out n h = cc
  colon_sound (d ∷ t) saw prev groups out n h =
      elim (colon_step-some next d t saw prev groups (out, n) h) [
        | inl (colon, once, rest) ↦
            subst (λ d. Parsed saw prev (b':' ∷ d ∷ t) groups out n) (sym ((==_iff d b':').0 colon))
              (subst (λ w. Parsed w prev (b':' ∷ b':' ∷ t) groups out n) (sym once)
                (gap_sound t prev groups out n rest))
        | inr (other, group, rest) ↦
            subst (λ p. Parsed saw p (b':' ∷ d ∷ t) groups out n) (sym group)
              (sep_sound d t saw groups out n other rest)
      ]

  group_sound :
      (s : Text) (saw : Bool) (groups : ℕ) (out : Bool) (n : ℕ)
      → group_step next (span_upto is_hex 4 s) saw groups ≡ some (out, n)
      → Parsed saw false s groups out n
  unfolding body tails
  group_sound s saw groups out n h =
      let (whole, hex, short) = span_upto_sound is_hex 4 s in
      let (full, ends, rest) = group_step-some next (span_upto is_hex 4 s) saw groups (out, n) h in
      let digits = (span_upto is_hex 4 s).0 in
      let p = next_sound (span_upto is_hex 4 s).1 saw true (suc groups) out n (λ _. ends) rest in
      record {
        front = digits ∷ p.front;
        rest = p.rest;
        more = p.more;
        good = group_front digits p.front full short hex p.good;
        text =
            whole ∙ ap (λ t. digits ++ t) p.text ∙ sym (append_assoc digits (tails p.front) p.rest);
        ending = p.ending;
        count = omega (arith, p.count);
      }

prev_unset :
    (prev : Bool) (c : ℕ) (s : Text)
    → (c == b':') ≡ false
    → (prev ≡ true → ends_group (c ∷ s) ≡ true)
    → prev ≡ false
prev_unset true c s other starts = let colon = starts refl in cc
prev_unset false c s other starts = refl

pub v6_loop_sound :
    (fuel : ℕ) (s : Text) (saw prev : Bool) (groups : ℕ) (out : Bool) (n : ℕ)
    → (prev ≡ true → ends_group s ≡ true)
    → v6_loop fuel s saw prev groups ≡ some (out, n)
    → Parsed saw prev s groups out n
unfolding v6_loop
v6_loop_sound fuel [] saw prev groups out n starts h =
    let (a, b) = some-pair h in
    subst (λ o. Parsed saw prev [] groups o n) a
      (subst (λ m. Parsed saw prev [] groups saw m) b (Parsed-nil saw prev groups))
v6_loop_sound zero (c ∷ s) saw prev groups out n starts h = cc
v6_loop_sound (suc fuel) (c ∷ s) saw prev groups out n starts h = elim (Bool-cases (c == b':')) [
  | inl colon ↦
      subst (λ c. Parsed saw prev (c ∷ s) groups out n) (sym ((==_iff c b':').0 colon))
        (colon_sound (v6_loop fuel) (v6_loop_sound fuel) s saw prev groups out n (rw colon at h))
  | inr other ↦
      let unset : prev ≡ false = prev_unset prev c s other starts in
      subst (λ p. Parsed saw p (c ∷ s) groups out n) (sym unset)
        (group_sound (v6_loop fuel) (v6_loop_sound fuel) (c ∷ s) saw groups out n (rw other at h))
]
