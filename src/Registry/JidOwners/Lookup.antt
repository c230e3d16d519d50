-- ===== src/Registry/JidOwners/Lookup.antt =====
-- Who owns a path, and what a reconcile keeps: lib/jid_owner_registry_pure.cpp.
use crate.Base.{
  All, Bool, Bool-cases, Map, Option, SortedFrom, Text, [], arith, false, find, find-below,
  if◌then◌else◌, inl, inr, length, ltb, none, refl, some, subst, suc, true, ℕ, ℕ_discrete, ◌&&◌,
  ◌+◌, ◌∷◌, ◌≡◌, ◌≤◌, ◌⊎◌,
}
use crate.Registry.JidOwners.Around.{IsAround, covers_iff, not-covers}
use crate.Registry.JidOwners.{
  Entry, covers, is_better, owner_loop, find_owner_by_path, keep_live, dropped_of, reconcile,
}

abbrev pub IsEntry : ℕ → Entry → Map Entry → Type 0
IsEntry j e [] = ⊥
IsEntry j e ((i, w) ∷ m) = ((i ≡ j) × (w ≡ e)) ⊎ IsEntry j e m

-- The innermost jail around a path, if there is one: no jail around it has a longer path.
abbrev pub IsInnermost : Text → Map Entry → Option (ℕ × Entry) → Type 0
IsInnermost query m none = All (λ (r : ℕ × Entry). ¬ IsAround r.1.path query) m
IsInnermost query m (some (j, e)) =
    IsEntry j e m
    × IsAround e.path query
    × All (λ (r : ℕ × Entry). (¬ IsAround r.1.path query) ⊎ (length r.1.path ≤ length e.path)) m

-- The same by the test of the code.
abbrev NoLonger : ℕ → Text → Map Entry → Type 0
NoLonger n query m =
    All (λ (r : ℕ × Entry). (covers r.1.path query && ltb n (length r.1.path)) ≡ false) m

abbrev IsBest : Text → Map Entry → Option (ℕ × Entry) → Type 0
IsBest query m none = All (λ (r : ℕ × Entry). covers r.1.path query ≡ false) m
IsBest query m (some (j, e)) =
    IsEntry j e m × (covers e.path query ≡ true) × NoLonger (length e.path) query m

none-IsAround :
    (query : Text) (m : Map Entry)
    → All (λ (r : ℕ × Entry). covers r.1.path query ≡ false) m
    → All (λ (r : ℕ × Entry). ¬ IsAround r.1.path query) m
none-IsAround query [] h = tt
none-IsAround query ((j, e) ∷ m) h = (not-covers e.path query h.0, none-IsAround query m h.1)

none_longer :
    (n : ℕ) (query : Text) (m : Map Entry)
    → NoLonger n query m
    → All (λ (r : ℕ × Entry). (¬ IsAround r.1.path query) ⊎ (length r.1.path ≤ n)) m
none_longer n query [] h = tt
none_longer n query ((j, e) ∷ m) h = (
  elim (Bool-cases (covers e.path query)) [
    | inl around ↦ inr (ground (arith, around, h.0))
    | inr apart ↦ inl (not-covers e.path query apart)
  ],
  none_longer n query m h.1,
)

IsBest-IsInnermost :
    (query : Text) (m : Map Entry) (r : Option (ℕ × Entry))
    → IsBest query m r
    → IsInnermost query m r
IsBest-IsInnermost query m none h = none-IsAround query m h
IsBest-IsInnermost query m (some (j, e)) (there, around, longest) =
    (there, (covers_iff e.path query).0 around, none_longer (length e.path) query m longest)

-- What the loop returns from some point on, given the best entry before.
abbrev Extends : Text → Map Entry → Option (ℕ × Entry) → Option (ℕ × Entry) → Type 0
Extends query m none r = IsBest query m r
Extends query m (some (i, b)) none = ⊥
Extends query m (some (i, b)) (some (j, e)) =
    (((i ≡ j) × (b ≡ e)) ⊎ (IsEntry j e m × (covers e.path query ≡ true)))
    × (length b.path ≤ length e.path)
    × NoLonger (length e.path) query m

-- The loop passes an entry that does not improve the best one.
pass :
    (query : Text) (j : ℕ) (w : Entry) (m : Map Entry) (best r : Option (ℕ × Entry))
    → (covers w.path query && is_better w best) ≡ false
    → Extends query m best r
    → Extends query ((j, w) ∷ m) best r
pass query j w m none none bad t = (ground arith, t)
pass query j w m none (some (i, e)) bad t = (inr t.0, t.1, (ground arith, t.2))
pass query j w m (some (i, b)) none bad t = t
pass query j w m (some (i, b)) (some (k, e)) bad t = (
  elim t.0 [ inl same ↦ inl same | inr (there, covering) ↦ inr (inr there, covering) ],
  t.1,
  (ground (arith, t.1, bad), t.2),
)

-- The loop takes an entry that does.
take_it :
    (query : Text) (j : ℕ) (w : Entry) (m : Map Entry) (best r : Option (ℕ × Entry))
    → (covers w.path query && is_better w best) ≡ true
    → Extends query m (some (j, w)) r
    → Extends query ((j, w) ∷ m) best r
take_it query j w m best none good t = absurd t
take_it query j w m none (some (i, e)) good t =
    let covering : covers w.path query ≡ true = ground arith in
    let no_longer : (covers w.path query && ltb (length e.path) (length w.path)) ≡ false =
      ground (arith, t.1) in
    elim t.0 [
      | inl same ↦ (
        inl same,
        subst (λ (x : Entry). covers x.path query ≡ true) same.1 covering,
        (no_longer, t.2),
      )
      | inr (there, found) ↦ (inr there, found, (no_longer, t.2))
    ]
take_it query j w m (some (i, b)) (some (k, e)) good t =
    let covering : covers w.path query ≡ true = ground arith in
    let longer : length b.path ≤ length w.path = ground arith in
    let no_longer : (covers w.path query && ltb (length e.path) (length w.path)) ≡ false =
      ground (arith, t.1) in
    let rest : NoLonger (length e.path) query ((j, w) ∷ m) = (no_longer, t.2) in
    elim t.0 [
      | inl same ↦ (
        inr (inl same, subst (λ (x : Entry). covers x.path query ≡ true) same.1 covering),
        omega (arith, longer, t.1),
        rest,
      )
      | inr (there, found) ↦ (inr (inr there, found), omega (arith, longer, t.1), rest)
    ]

owner_loop-Extends :
    (query : Text) (m : Map Entry) (best : Option (ℕ × Entry))
    → Extends query m best (owner_loop query m best)
unfolding owner_loop
owner_loop-Extends query [] none = tt
owner_loop-Extends query [] (some (i, b)) = (inl (refl, refl), omega arith, tt)
owner_loop-Extends query ((j, w) ∷ m) best =
    elim (Bool-cases (covers w.path query && is_better w best)) [
      | inl good ↦
          rw good (take_it query j w m best _ good (owner_loop-Extends query m (some (j, w))))
      | inr bad ↦ rw bad (pass query j w m best _ bad (owner_loop-Extends query m best))
    ]

-- `findOwnerByPath` returns an entry whose path is the query or a directory above it, none of
-- whose competitors has a longer path, and nothing exactly when no entry's path is such.
pub find_owner_by_path-IsInnermost :
    (m : Map Entry) (query : Text) → IsInnermost query m (find_owner_by_path m query)
unfolding find_owner_by_path
find_owner_by_path-IsInnermost m query =
    IsBest-IsInnermost query m (owner_loop query m none) (owner_loop-Extends query m none)

-- The entry of a jid, if the probe says that it is live.
abbrev pub if_live : (ℕ → Entry → Bool) → ℕ → Option Entry → Option Entry
if_live is_live j none = none
if_live is_live j (some e) = if is_live j e then some e else none

keep_live-find_here :
    (is_live : ℕ → Entry → Bool) (i : ℕ) (w : Entry) (m : Map Entry)
    → find i (keep_live is_live m) ≡ if_live is_live i (find i m)
    → find i m ≡ none
    → find i (keep_live is_live ((i, w) ∷ m)) ≡ if_live is_live i (find i ((i, w) ∷ m))
unfolding keep_live find
keep_live-find_here is_live i w m h gone = ground (arith, h, gone)

keep_live-find :
    (is_live : ℕ → Entry → Bool) (j lo : ℕ) (m : Map Entry)
    → SortedFrom lo m
    → find j (keep_live is_live m) ≡ if_live is_live j (find j m)
unfolding keep_live find
keep_live-find is_live j lo [] s = refl
keep_live-find is_live j lo ((i, w) ∷ m) s = elim (ℕ_discrete i j) [
  | yes e ↦
      subst
        (λ (k : ℕ).
          find k (keep_live is_live ((i, w) ∷ m)) ≡ if_live is_live k (find k ((i, w) ∷ m)))
        e
        (keep_live-find_here is_live i w m (keep_live-find is_live i (suc i) m s.1)
          (find-below i (suc i) m (omega arith) s.1))
  | no other ↦ ground (arith, other, keep_live-find is_live j (suc i) m s.1)
]

dropped_of-length :
    (is_live : ℕ → Entry → Bool) (m : Map Entry)
    → length (keep_live is_live m) + dropped_of is_live m ≡ length m
unfolding keep_live dropped_of
dropped_of-length is_live [] = refl
dropped_of-length is_live ((i, w) ∷ m) = ground (arith, dropped_of-length is_live m)

-- A reconcile of a sorted registry keeps the entry of a jid exactly if the probe confirms it, drops
-- nothing else, and reports how many entries it dropped.
pub reconcile_lem :
    (is_live : ℕ → Entry → Bool) (m : Map Entry)
    → SortedFrom 1 m
    → let r = reconcile m (some is_live) in
      ((j : ℕ) → find j r.0 ≡ if_live is_live j (find j m)) × (length r.0 + r.1 ≡ length m)
unfolding reconcile
reconcile_lem is_live m s = (λ j. keep_live-find is_live j 1 m s, dropped_of-length is_live m)
