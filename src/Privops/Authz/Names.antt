-- ===== src/Privops/Authz/Names.antt =====
-- The names that carry an owner: epair halves and per-jail pf anchors.
use crate.Base.{
  &&_elim, Bool, Bool-cases, Text, [], all, ap, arith, drop, false, has, inl, inr, is_digit,
  is_empty, length-append, not, refl, starts_with, starts_with→append, subst, true, ℕ, ◌&&◌, ◌++◌,
  ◌↔◌, ◌∙◌, ◌∷◌, ◌≡◌, ◌⊎◌,
}
use crate.Privops.Authz.{
  epair_tail, epair_prefix, is_epair_iface_name, anchor_prefix, anchor_jail_name,
}

anchor_parts :
    (a n : Text)
    → anchor_jail_name a ≡ n
    → is_empty n ≡ false
    → (starts_with anchor_prefix a ≡ true) × (has b'/' (drop 6 a) ≡ false) × (drop 6 a ≡ n)
unfolding anchor_jail_name
anchor_parts a n h e = ground arith

anchor_back :
    (n : Text) → has b'/' n ≡ false → is_empty n ≡ false → anchor_jail_name (anchor_prefix ++ n) ≡ n
unfolding anchor_jail_name
anchor_back [] h e = cc
anchor_back (c ∷ n) h e = ground arith

-- The gate reads a jail name off an anchor exactly if it is `crate/<name>` with no further slash.
pub anchor_jail_name_iff :
    (a n : Text)
    → is_empty n ≡ false
    → (anchor_jail_name a ≡ n) ↔ ((a ≡ anchor_prefix ++ n) × (has b'/' n ≡ false))
anchor_jail_name_iff a n full = (
  λ h.
      let (start, plain, rest) = anchor_parts a n h full in
      (
        starts_with→append anchor_prefix a start ∙ ap (◌++◌ anchor_prefix) rest,
        subst (λ t. has b'/' t ≡ false) rest plain,
      ),
  λ h. ap anchor_jail_name h.0 ∙ anchor_back n h.1 full,
)

epair_tail_sound :
    (moved : Bool) (s : Text)
    → epair_tail moved s ≡ true
    → (digits : Text) × (c : ℕ) × (s ≡ digits ++ c ∷ [])
      × (all is_digit digits ≡ true)
      × ((c ≡ b'a') ⊎ (c ≡ b'b'))
      × ((is_empty digits && not moved) ≡ false)
unfolding epair_tail
epair_tail_sound moved [] h = cc
epair_tail_sound moved (c ∷ []) h = ([], c, refl, refl, ground arith, ground arith)
epair_tail_sound moved (c ∷ d ∷ s) h =
    let (digit, rest) = &&_elim (is_digit c) (epair_tail true (d ∷ s)) h in
    let (digits, last, same, numeric, half, _) = epair_tail_sound true (d ∷ s) rest in
    (c ∷ digits, last, ap (◌∷◌ c) same, ground arith, half, refl)

epair_tail_complete :
    (moved : Bool) (digits : Text) (c : ℕ)
    → all is_digit digits ≡ true
    → (c ≡ b'a') ⊎ (c ≡ b'b')
    → (is_empty digits && not moved) ≡ false
    → epair_tail moved (digits ++ c ∷ []) ≡ true
unfolding epair_tail
epair_tail_complete moved [] c d h m = ground arith
epair_tail_complete moved (b ∷ []) c d h m = ground arith
epair_tail_complete moved (b ∷ b' ∷ s) c d h m = ground (arith, epair_tail_complete true (b' ∷ s) c)

abbrev pub IsEpairHalf : Text → Type 0
IsEpairHalf name =
    (digits : Text) × (c : ℕ) × (name ≡ epair_prefix ++ digits ++ c ∷ [])
    × (all is_digit digits ≡ true)
    × (is_empty digits ≡ false)
    × ((c ≡ b'a') ⊎ (c ≡ b'b'))

epair_parts :
    (name : Text)
    → is_epair_iface_name name ≡ true
    → (starts_with epair_prefix name ≡ true) × (epair_tail false (drop 5 name) ≡ true)
unfolding is_epair_iface_name
epair_parts name h = elim (Bool-cases (epair_tail false (drop 5 name))) [
  | inl t ↦ (ground arith, t)
  | inr f ↦ ground arith
]

epair_back :
    (d c : ℕ) (ds : Text)
    → all is_digit (d ∷ ds) ≡ true
    → (c ≡ b'a') ⊎ (c ≡ b'b')
    → is_epair_iface_name (epair_prefix ++ d ∷ ds ++ c ∷ []) ≡ true
unfolding is_epair_iface_name
epair_back d c ds digits half =
    let tail : epair_tail false (d ∷ (ds ++ c ∷ [])) ≡ true =
      epair_tail_complete false (d ∷ ds) c digits half refl in
    ground (arith, tail, length-append ds (c ∷ []))

-- The gate takes a name for an epair half exactly if it is `epair`, digits, and `a` or `b`.
pub is_epair_iface_name_iff : (name : Text) → (is_epair_iface_name name ≡ true) ↔ IsEpairHalf name
is_epair_iface_name_iff name = (sound, complete)
  where
    sound : is_epair_iface_name name ≡ true → IsEpairHalf name
    sound h =
        let (start, tail) = epair_parts name h in
        let (digits, c, same, numeric, half, full) = epair_tail_sound false (drop 5 name) tail in
        (
          digits,
          c,
          starts_with→append epair_prefix name start ∙ ap (◌++◌ epair_prefix) same,
          numeric,
          ground (arith, full),
          half,
        )

    complete : IsEpairHalf name → is_epair_iface_name name ≡ true
    complete ([], c, same, numeric, full, half) = cc
    complete (d ∷ ds, c, same, numeric, full, half) =
        ap is_epair_iface_name same ∙ epair_back d c ds numeric half
