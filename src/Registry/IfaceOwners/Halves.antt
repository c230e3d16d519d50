-- ===== src/Registry/IfaceOwners/Halves.antt =====
-- The two halves of an epair: lib/iface_owner_registry_pure.cpp.
use crate.Base.{
  Bool, Bool-cases, Text, [], all, ap, arith, drop_last, false, if◌then◌else◌, inl, inr, is_digit,
  is_empty, keep_if, last_or, last_or-append, none, not, refl, some, subst, sym, text_eq,
  text_eq→eq, true, ℕ, ◌&&◌, ◌++◌, ◌==◌, ◌∙◌, ◌∷◌, ◌≡◌, ◌≢◌, ◌⊎◌,
}
use crate.Privops.Authz.{is_epair_iface_name, epair_prefix}
use crate.Privops.Authz.Names.{is_epair_iface_name_iff}
use crate.Registry.IfaceOwners.{
  EntryMap, is_epair_name, peer_half, host_half, find_iface, is_kept, reconcile,
}

drop_last-append : (s : Text) (c : ℕ) → drop_last (s ++ c ∷ []) ≡ s
drop_last-append [] c = refl
drop_last-append (b ∷ []) c = refl
drop_last-append (b ∷ b' ∷ s) c = ap (◌∷◌ b) (drop_last-append (b' ∷ s) c)

-- The name of a half without its letter.
abbrev stem : Text → Text
stem digits = epair_prefix ++ digits

half_true :
    (digits : Text) (c : ℕ)
    → all is_digit digits ≡ true
    → is_empty digits ≡ false
    → (c ≡ b'a') ⊎ (c ≡ b'b')
    → is_epair_iface_name (stem digits ++ c ∷ []) ≡ true
half_true digits c numeric full half =
    (is_epair_iface_name_iff (stem digits ++ c ∷ [])).1 (digits, c, refl, numeric, full, half)

peer_of :
    (s : Text) (c : ℕ)
    → is_epair_iface_name (s ++ c ∷ []) ≡ true
    → peer_half (s ++ c ∷ []) ≡ s ++ (if c == b'a' then b'b' else b'a') ∷ []
unfolding peer_half
peer_of s c h = rw h (rw (drop_last-append s c, last_or-append 0 c s) refl)

host_of :
    (s : Text) (c : ℕ)
    → is_epair_iface_name (s ++ c ∷ []) ≡ true
    → host_half (s ++ c ∷ []) ≡ s ++ b'a' ∷ []
unfolding host_half
host_of s c h = rw h (rw (drop_last-append s c) refl)

-- What holds of the peer of a half.
abbrev pub IsPeerOf : Text → Text → Type 0
IsPeerOf name peer =
    (is_epair_name peer ≡ true)
    × (last_or 0 peer ≢ last_or 0 name)
    × (peer_half peer ≡ name)
    × (host_half peer ≡ host_half name)

peer_lem :
    (digits : Text) (c d : ℕ)
    → all is_digit digits ≡ true
    → is_empty digits ≡ false
    → ((c ≡ b'a') × (d ≡ b'b')) ⊎ ((c ≡ b'b') × (d ≡ b'a'))
    → IsPeerOf (stem digits ++ c ∷ []) (stem digits ++ d ∷ [])
peer_lem digits c d numeric full two =
    let half_c : (c ≡ b'a') ⊎ (c ≡ b'b') = ground arith in
    let half_d : (d ≡ b'a') ⊎ (d ≡ b'b') = ground arith in
    let name_c = half_true digits c numeric full half_c in
    let name_d = half_true digits d numeric full half_d in
    let other : (if d == b'a' then b'b' else b'a') ≡ c = ground (arith, two) in
    let differ : d ≢ c = λ e. ground (arith, two, e) in
    (
      name_d,
      λ e. differ (sym (last_or-append 0 d (stem digits)) ∙ e ∙ last_or-append 0 c (stem digits)),
      peer_of (stem digits) d name_d ∙ ap (λ b. stem digits ++ b ∷ []) other,
      host_of (stem digits) d name_d ∙ sym (host_of (stem digits) c name_c),
    )

peer_cases :
    (name digits : Text) (c : ℕ)
    → name ≡ stem digits ++ c ∷ []
    → all is_digit digits ≡ true
    → is_empty digits ≡ false
    → (c ≡ b'a') ⊎ (c ≡ b'b')
    → IsPeerOf name (peer_half name)
peer_cases name digits c same numeric full half =
    let d : ℕ = if c == b'a' then b'b' else b'a' in
    let peer : stem digits ++ d ∷ [] ≡ peer_half name =
      sym (ap peer_half same ∙ peer_of (stem digits) c (half_true digits c numeric full half)) in
    subst (λ n. IsPeerOf n (peer_half name)) (sym same)
      (subst (IsPeerOf (stem digits ++ c ∷ [])) peer
        (peer_lem digits c d numeric full (ground arith)))

-- The peer of an epair half is the other half of the same epair: a half with another last letter, whose
-- peer is the first and whose host half is the same.
pub peer_half-IsPeerOf : (name : Text) → is_epair_name name ≡ true → IsPeerOf name (peer_half name)
peer_half-IsPeerOf name h =
    let (digits, c, same, numeric, full, half) = (is_epair_iface_name_iff name).0 h in
    peer_cases name digits c same numeric full half

find_iface-kept :
    (is_live : Text → Bool) (name : Text) (m : EntryMap)
    → find_iface name (keep_if (λ (r : Text × ℕ). is_kept is_live r.0) m)
      ≡ (if is_kept is_live name then find_iface name m else none)
unfolding find_iface
find_iface-kept is_live name [] = ground arith
find_iface-kept is_live name ((n, u) ∷ m) = elim (Bool-cases (text_eq n name)) [
  | inl same ↦
      let it : is_kept is_live n ≡ is_kept is_live name =
        ap (is_kept is_live) (text_eq→eq n name same) in
      ground (arith, same, it, find_iface-kept is_live name m)
  | inr other ↦ ground (arith, other, find_iface-kept is_live name m)
]

-- A reconcile keeps or drops the two halves of an epair together: each keeps its owner exactly if the
-- host has the epair's host half.
pub reconcile_halves :
    (m : EntryMap) (is_live : Text → Bool) (name : Text)
    → is_epair_name name ≡ true
    → let r = (reconcile m (some is_live)).0 in
      let kept = is_kept is_live name in
      (find_iface name r ≡ (if kept then find_iface name m else none))
      × (find_iface (peer_half name) r ≡ (if kept then find_iface (peer_half name) m else none))
unfolding reconcile
reconcile_halves m is_live name h =
    let (half, differ, back, host) = peer_half-IsPeerOf name h in
    let alike : is_kept is_live (peer_half name) ≡ is_kept is_live name =
      ap (λ (t : Text). not (is_empty t) && is_live t) host in
    (
      find_iface-kept is_live name m,
      find_iface-kept is_live (peer_half name) m
          ∙ ap (λ (b : Bool). if b then find_iface (peer_half name) m else none) alike,
    )
