-- ===== src/Privops/Fields/Hosts.antt =====
-- The host names that the validator accepts are those described.
use crate.Base.{
  &&_elim, ==_iff, All, Bool, Bool-cases, List, Text, [], add_front, all, ap, append-nil,
  append_assoc, ap₂, arith, false, has, has-all, head_or, inl, inr, is_alnum, is_empty, join,
  last_or, length, ltb, ok, refl, split_on, split_on-append, split_on-piece, subst, sym, true, ℕ,
  ◌&&◌, ◌++◌, ◌==◌, ◌||◌, ◌↔◌, ◌∙◌, ◌∷◌, ◌≡◌,
}
use crate.Privops.Fields.{
  validate_hostname, hostname_loop, check_label, long_hostname, empty_label, long_label,
  hyphen_label,
}
use crate.Privops.Fields.Shapes.{IsHostByte, IsLabel, IsHostname}
use crate.Privops.Fields.Names.{test_iff, passes_iff, then_iff, all_iff, is_empty_iff}

abbrev is_host_byte : ℕ → Bool
is_host_byte c = is_alnum c || c == b'-'

is_host_byte_iff : (c : ℕ) → (is_host_byte c ≡ true) ↔ IsHostByte c
is_host_byte_iff c = ground arith

host_bytes_iff : (s : Text) → (all is_host_byte s ≡ true) ↔ All IsHostByte s
host_bytes_iff s = all_iff is_host_byte IsHostByte is_host_byte_iff s

check_label_iff : (l : Text) → all is_host_byte l ≡ true → (check_label l ≡ ok tt) ↔ IsLabel l
unfolding check_label
check_label_iff l bytes = (
  (λ h.
      let (filled, h₁) = (test_iff (is_empty l) empty_label _).0 h in
      let (short, h₂) = (test_iff (ltb 63 (length l)) long_label _).0 h₁ in
      let free = (passes_iff (head_or 0 l == b'-' || last_or 0 l == b'-') hyphen_label).0 h₂ in
      (
        (is_empty_iff l).0 filled,
        ground (arith, short),
        ground (arith, free),
        ground (arith, free),
        (host_bytes_iff l).0 bytes,
      )),
  (λ h.
      let (filled, short, first, last, _) = h in
      (test_iff (is_empty l) empty_label _).1 (
        (is_empty_iff l).1 filled,
        (test_iff (ltb 63 (length l)) long_label _).1 (
          ground (arith, short),
          (passes_iff (head_or 0 l == b'-' || last_or 0 l == b'-') hyphen_label).1
              (ground (arith, first, last)),
        ),
      )),
)

no_dot : (w : Text) → all is_host_byte w ≡ true → has 46 w ≡ false
no_dot w h = has-all is_host_byte 46 w refl h

-- The piece that begins with `w` goes on with the first piece of the rest.
split-open :
    (w s p : Text) (ps : List Text)
    → has 46 w ≡ false
    → split_on 46 s ≡ p ∷ ps
    → split_on 46 (w ++ s) ≡ (w ++ p) ∷ ps
split-open [] s p ps plain h = h
split-open (c ∷ w) s p ps plain h =
    let other : (c == 46) ≡ false = ground (arith, plain) in
    let later : has 46 w ≡ false = ground (arith, plain) in
    rw other (ap (add_front c) (split-open w s p ps later h))

split_first : (s : Text) → (p : Text) × ((ps : List Text) × (split_on 46 s ≡ p ∷ ps))
split_first [] = ([], ([], refl))
split_first (c ∷ s) =
    let (p, (ps, e)) = split_first s in
    elim (Bool-cases (c == 46)) [
      | inl dot ↦ ([], (split_on 46 s, rw dot refl))
      | inr other ↦ (c ∷ p, (ps, rw other (ap (add_front c) e)))
    ]

middle_byte : (w p : Text) (c : ℕ) → All IsHostByte (w ++ c ∷ p) → IsHostByte c
middle_byte [] p c h = h.0
middle_byte (b ∷ w) p c h = middle_byte w p c h.1

-- A byte that no label may have spoils the label that is open.
bad_byte :
    (w s : Text) (c : ℕ)
    → all is_host_byte w ≡ true
    → (c == 46) ≡ false
    → is_host_byte c ≡ false
    → ¬ All IsLabel (split_on 46 (w ++ c ∷ s))
bad_byte w s c bytes other bad labels =
    let (p, (ps, e)) = split_first s in
    let first : split_on 46 (c ∷ s) ≡ (c ∷ p) ∷ ps = rw other (ap (add_front c) e) in
    let whole = split-open w (c ∷ s) (c ∷ p) ps (no_dot w bytes) first in
    let label = subst (All IsLabel) whole labels in
    let good = (is_host_byte_iff c).1 (middle_byte w p c label.0.4) in cc

snoc_byte :
    (w : Text) (c : ℕ)
    → all is_host_byte w ≡ true
    → is_host_byte c ≡ true
    → all is_host_byte (w ++ c ∷ []) ≡ true
snoc_byte [] c h good = ap (λ b. b && true) good
snoc_byte (b ∷ w) c h good =
    let (here, later) = &&_elim (is_host_byte b) (all is_host_byte w) h in
    ap₂ ◌&&◌ here (snoc_byte w c later good)

hostname_loop_iff :
    (w s : Text)
    → all is_host_byte w ≡ true
    → (hostname_loop w s ≡ ok tt) ↔ All IsLabel (split_on 46 (w ++ s))
unfolding hostname_loop
hostname_loop_iff w [] bytes =
    let (sound, complete) = check_label_iff w bytes in
    let piece : split_on 46 (w ++ []) ≡ w ∷ [] =
      ap (split_on 46) (append-nil w) ∙ split_on-piece 46 w (no_dot w bytes) in
    (
      (λ h. subst (All IsLabel) (sym piece) (sound h, tt)),
      (λ h. complete (subst (All IsLabel) piece h).0),
    )
hostname_loop_iff w (c ∷ s) bytes = elim (Bool-cases (c == b'.')) [
  | inl dot ↦
      let (label, labelled) = check_label_iff w bytes in
      let (sound, complete) = hostname_loop_iff [] s refl in
      let (split, join) = then_iff (check_label w) (hostname_loop [] s) in
      let pieces : split_on 46 (w ++ c ∷ s) ≡ w ∷ split_on 46 s =
        ap (λ b. split_on 46 (w ++ b ∷ s)) ((==_iff c b'.').0 dot)
        ∙ split_on-append 46 w s (no_dot w bytes) in
      rw (hostname_loop, dot)
        (
          (λ h.
              let (here, later) = split h in
              subst (All IsLabel) (sym pieces) (label here, sound later)),
          (λ h. let each = subst (All IsLabel) pieces h in join (labelled each.0, complete each.1)),
        )
  | inr other ↦ elim (Bool-cases (is_host_byte c)) [
    | inl good ↦
        let (sound, complete) = hostname_loop_iff (w ++ c ∷ []) s (snoc_byte w c bytes good) in
        rw (hostname_loop, other, good)
          (
            (λ h. subst (λ t. All IsLabel (split_on 46 t)) (append_assoc w (c ∷ []) s) (sound h)),
            (λ h.
                complete
                  (subst (λ t. All IsLabel (split_on 46 t)) (sym (append_assoc w (c ∷ []) s)) h)),
          )
    | inr bad ↦
        rw (hostname_loop, other, bad) ((λ h. cc), (λ h. absurd (bad_byte w s c bytes other bad h)))
  ]
]

pub validate_hostname_iff : (h : Text) → (validate_hostname h ≡ ok tt) ↔ IsHostname h
unfolding validate_hostname
validate_hostname_iff [] = (λ h. inl refl, λ h. refl)
validate_hostname_iff (c ∷ s) =
    let (sound, complete) = hostname_loop_iff [] (c ∷ s) refl in
    let (split, join) =
      test_iff (ltb 253 (length (c ∷ s))) long_hostname (hostname_loop [] (c ∷ s)) in
    (
      (λ h. let (short, labels) = split h in inr (ground (arith, short), sound labels)),
      (λ h. elim h [
        | inl e ↦ cc
        | inr (short, labels) ↦ join (ground (arith, short), complete labels)
      ]),
    )
