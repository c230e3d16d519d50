-- ===== src/Net/Syntax/V6.antt =====
-- `isV6` accepts exactly the grammar of RFC 4291 without its dotted-quad forms.
use crate.Base.{
  &&_elim, Bool, List, Option-cases, Text, [], all, ap, append-nil, append_assoc, ap₂, arith, false,
  inl, inr, join, length, length-append, le→leb, refl, some, span_upto, span_upto-append, stops,
  subst, suc, sym, true, zero, ℕ, ◌++◌, ◌+◌, ◌<◌, ◌==◌, ◌↔◌, ◌∙◌, ◌∷◌, ◌≡◌, ◌≤◌,
}
use crate.Net.Syntax.{V6State, is_hex, ends_group, group_step, v6_loop, enough_groups, is_v6}
use crate.Net.Syntax.Reads.{
  is_group, tails, body, body-join, body-nil, Ending, same, gap, v6_loop_sound,
}

-- Eight groups of one to four hexadecimal digits, or at most seven of them around one `::`.
pub data IsV6Text (s : Text) : Type 0 where
  eight : (gs : List Text) → all is_group gs ≡ true → length gs ≡ 8 → s ≡ join b':' gs → IsV6Text s
  short :
      (ls rs : List Text)
      → all is_group ls ≡ true
      → all is_group rs ≡ true
      → length ls + length rs ≤ 7
      → s ≡ join b':' ls ++ b':' ∷ b':' ∷ join b':' rs
      → IsV6Text s

stops_at_end : (s : Text) → ends_group s ≡ true → stops is_hex s ≡ true
stops_at_end [] h = refl
stops_at_end (c ∷ s) h = ground arith

starts_behind :
    (saw out : Bool) (rest : Text) (more : ℕ) (gs : List Text)
    → Ending saw out rest more
    → ends_group (tails gs ++ rest) ≡ true
unfolding tails
starts_behind saw out rest more [] (same _ e _) = ap ends_group e
starts_behind saw out rest more [] (gap gs _ _ _ e _) = ap ends_group e
starts_behind saw out rest more (g ∷ gs) end = refl

step_group :
    (fuel d : ℕ) (s : Text) (saw prev : Bool) (groups : ℕ)
    → is_hex d ≡ true
    → v6_loop (suc fuel) (d ∷ s) saw prev groups
      ≡ group_step (v6_loop fuel) (span_upto is_hex 4 (d ∷ s)) saw groups
unfolding v6_loop
step_group fuel d s saw prev groups h =
    let other : (d == b':') ≡ false = ground arith in rw other refl

step_separator :
    (fuel d : ℕ) (s : Text) (saw : Bool) (groups : ℕ)
    → is_hex d ≡ true
    → v6_loop (suc fuel) (b':' ∷ d ∷ s) saw true groups ≡ v6_loop fuel (d ∷ s) saw false groups
unfolding v6_loop
step_separator fuel d s saw groups h =
    let other : (d == b':') ≡ false = ground arith in rw other refl

group-cases :
    (g : Text) → is_group g ≡ true → (d : ℕ) × (t : Text) × (g ≡ d ∷ t) × (is_hex d ≡ true)
group-cases [] h = cc
group-cases (d ∷ t) h = (d, t, refl, ground arith)

-- What stands in a group, and what the loop goes on with behind it.
read_group :
    (fuel : ℕ) (g left : Text) (saw : Bool) (groups : ℕ)
    → is_group g ≡ true
    → ends_group left ≡ true
    → v6_loop (suc fuel) (g ++ left) saw false groups ≡ v6_loop fuel left saw true (suc groups)
read_group fuel [] left saw groups good ends = cc
read_group fuel (d ∷ t) left saw groups good ends =
    let hex : all is_hex (d ∷ t) ≡ true = ground arith in
    let small : length (d ∷ t) ≤ 4 = ground arith in
    step_group fuel d (t ++ left) saw false groups (ground arith)
    ∙ ap (λ x. group_step (v6_loop fuel) x saw groups)
        (span_upto-append is_hex 4 (d ∷ t) left hex small (stops_at_end left ends))
    ∙ rw ends refl

read_separator :
    (fuel : ℕ) (g left : Text) (saw : Bool) (groups : ℕ)
    → is_group g ≡ true
    → v6_loop (suc fuel) (b':' ∷ (g ++ left)) saw true groups
      ≡ v6_loop fuel (g ++ left) saw false groups
read_separator fuel [] left saw groups good = cc
read_separator fuel (d ∷ t) left saw groups good =
    step_separator fuel d (t ++ left) saw groups (ground arith)

state : {a b : Bool} {m n : ℕ} → a ≡ b → m ≡ n → ◌≡◌ {A = V6State} (some (a, m)) (some (b, n))
state e f = ap₂ (λ a m. some (a, m)) e f

nothing_left : (prev : Bool) (rest : Text) → rest ≡ [] → body prev [] ++ rest ≡ []
nothing_left prev rest gone = ap₂ (λ u v. u ++ v) (body-nil prev) gone

gap_left :
    (prev : Bool) (rest : Text) (gs : List Text)
    → rest ≡ b':' ∷ b':' ∷ body false gs
    → body prev [] ++ rest ≡ b':' ∷ b':' ∷ body false gs
gap_left prev rest gs at = ap₂ (λ u v. u ++ v) (body-nil prev) at

group_length : (g : Text) → is_group g ≡ true → 0 < length g
group_length [] h = cc
group_length (d ∷ t) h = omega arith

v6_loop_complete :
    (fuel : ℕ) (front : List Text) (rest : Text) (more : ℕ) (saw prev out : Bool) (groups : ℕ)
    → all is_group front ≡ true
    → Ending saw out rest more
    → length (body prev front ++ rest) ≤ fuel
    → v6_loop fuel (body prev front ++ rest) saw prev groups
      ≡ some (out, groups + length front + more)
unfolding v6_loop body tails
v6_loop_complete fuel [] rest more saw prev out groups good (same e gone zero_more) enough =
    ap (λ t. v6_loop fuel t saw prev groups) (nothing_left prev rest gone) ∙ state e (omega arith)
v6_loop_complete zero [] rest more saw prev out groups good (gap gs unseen seen fine at count)
      enough =
    absurd (omega (arith, ap length (gap_left prev rest gs at)))
v6_loop_complete (suc fuel) [] rest more saw prev out groups good (gap gs unseen seen fine at count)
      enough =
    let all_text = gap_left prev rest gs at in
    let tail = append-nil (body false gs) in
    let fits : length (body false gs ++ []) ≤ fuel =
      omega (arith, ap length all_text, ap length tail) in
    ap₂ (λ t w. v6_loop (suc fuel) t w prev groups) all_text unseen
    ∙ ap (λ t. v6_loop fuel t true false groups) (sym tail)
    ∙ v6_loop_complete fuel gs [] 0 true false true groups fine (same refl refl refl) fits
    ∙ state (sym seen) (omega arith)
v6_loop_complete zero (g ∷ gs) rest more saw true out groups good end enough = absurd (omega arith)
v6_loop_complete zero ([] ∷ gs) rest more saw false out groups good end enough = cc
v6_loop_complete zero ((d ∷ t) ∷ gs) rest more saw false out groups good end enough =
    absurd (omega arith)
v6_loop_complete (suc fuel) (g ∷ gs) rest more saw true out groups good end enough =
    let (first, others) = &&_elim (is_group g) (all is_group gs) good in
    let shape = append_assoc g (tails gs) rest in
    ap (λ t. v6_loop (suc fuel) (b':' ∷ t) saw true groups) shape
    ∙ read_separator fuel g (tails gs ++ rest) saw groups first
    ∙ ap (λ t. v6_loop fuel t saw false groups) (sym shape)
    ∙ v6_loop_complete fuel (g ∷ gs) rest more saw false out groups good end (omega arith)
v6_loop_complete (suc fuel) (g ∷ gs) rest more saw false out groups good end enough =
    let (first, others) = &&_elim (is_group g) (all is_group gs) good in
    let shape = append_assoc g (tails gs) rest in
    let fits : length (tails gs ++ rest) ≤ fuel =
      omega (arith, length-append g (tails gs ++ rest), ap length shape, group_length g first) in
    ap (λ t. v6_loop (suc fuel) t saw false groups) shape
    ∙ read_group fuel g (tails gs ++ rest) saw groups first (starts_behind saw out rest more gs end)
    ∙ v6_loop_complete fuel gs rest more saw true out (suc groups) others end fits
    ∙ state refl (omega arith)

is_v6-groups :
    (s : Text) → is_v6 s ≡ true → enough_groups (v6_loop (length s) s false false 0) ≡ true
unfolding is_v6
is_v6-groups [] h = cc
is_v6-groups (c ∷ s) h = h

eight_groups : (out : Bool) (n : ℕ) → false ≡ out → enough_groups (some (out, n)) ≡ true → n ≡ 8
eight_groups true n e h = cc
eight_groups false n e h = ground arith

seven_groups : (out : Bool) (n : ℕ) → out ≡ true → enough_groups (some (out, n)) ≡ true → n ≤ 7
seven_groups true n e h = ground arith
seven_groups false n e h = cc

join_full : (gs : List Text) → all is_group gs ≡ true → 0 < length gs → 0 < length (join b':' gs)
join_full [] good h = absurd (omega arith)
join_full ([] ∷ gs) good h = cc
join_full ((d ∷ t) ∷ []) good h = omega arith
join_full ((d ∷ t) ∷ g ∷ gs) good h = omega arith

is_v6_sound : (s : Text) → is_v6 s ≡ true → IsV6Text s
unfolding is_v6
is_v6_sound s h = elim (Option-cases (v6_loop (length s) s false false 0)) [
  | inl stuck ↦ let bad = sym (ap enough_groups stuck) ∙ is_v6-groups s h in cc
  | inr ((out, n), e) ↦
      let enough = sym (ap enough_groups e) ∙ is_v6-groups s h in
      let p = v6_loop_sound (length s) s false false 0 out n (λ set. cc) e in
      elim p.ending [
        | same unseen gone no_more ↦
            eight p.front p.good (omega (arith, eight_groups out n unseen enough, p.count)) (
              p.text
              ∙ ap (λ t. body false p.front ++ t) gone
              ∙ append-nil (body false p.front)
              ∙ body-join p.front)
        | gap gs _ seen fine at count ↦
            short p.front gs p.good fine (omega (arith, seven_groups out n seen enough, p.count)) (
              p.text
              ∙ ap₂ (λ t u. t ++ u) (body-join p.front)
                  (at ∙ ap (λ t. b':' ∷ b':' ∷ t) (body-join gs)))
      ]
]

accepts :
    (s : Text) (front : List Text) (rest : Text) (more : ℕ) (out : Bool)
    → all is_group front ≡ true
    → Ending false out rest more
    → s ≡ body false front ++ rest
    → v6_loop (length s) s false false 0 ≡ some (out, length front + more)
accepts s front rest more out good end e =
    subst (λ t. v6_loop (length t) t false false 0 ≡ some (out, length front + more)) (sym e)
      (v6_loop_complete (length (body false front ++ rest)) front rest more false false out 0 good
          end (omega arith)
        ∙ state refl (omega arith))

is_v6-enough :
    (s : Text) (out : Bool) (n : ℕ)
    → 0 < length s
    → v6_loop (length s) s false false 0 ≡ some (out, n)
    → enough_groups (some (out, n)) ≡ true
    → is_v6 s ≡ true
unfolding is_v6
is_v6-enough [] out n full e h = absurd (omega arith)
is_v6-enough (c ∷ s) out n full e h = ap enough_groups e ∙ h

is_v6_complete : (s : Text) → IsV6Text s → is_v6 s ≡ true
is_v6_complete s (eight gs good count e) =
    is_v6-enough s false 8 (omega (arith, ap length e, join_full gs good (omega arith)))
      (accepts s gs [] 0 false good (same refl refl refl)
          (e ∙ sym (body-join gs) ∙ sym (append-nil (body false gs)))
        ∙ state refl (omega arith))
      refl
is_v6_complete s (short ls rs good fine count e) =
    is_v6-enough s true (length ls + length rs)
      (omega (arith, ap length e, length-append (join b':' ls) (b':' ∷ b':' ∷ join b':' rs)))
      (accepts s ls (b':' ∷ b':' ∷ body false rs) (length rs) true good
        (gap rs refl refl fine refl refl)
        (e ∙ ap₂ (λ t u. t ++ b':' ∷ b':' ∷ u) (sym (body-join ls)) (sym (body-join rs))))
      (le→leb (length ls + length rs) 7 count)

-- The test accepts exactly such texts.
pub is_v6_iff : (s : Text) → (is_v6 s ≡ true) ↔ IsV6Text s
is_v6_iff s = (is_v6_sound s, is_v6_complete s)
