-- ===== src/Base/Maps.antt =====
-- `std::map` with numeric keys: the entries in the order of their keys, which is the order of its
-- iteration.
use Prim.Native.Nat.{ℕ, suc, ◌≤◌, ◌<◌}
use mathlib.Core.Bool.{Bool, true, false}
use mathlib.Core.Path.{◌≡◌, refl}
use mathlib.Core.Option.{Option, none, some}
use mathlib.Core.List.{List, [], ◌∷◌, ◌++◌}
use native.Mathlib.Omega.{arith}
use crate.Base.Tests.{ltb, ◌==◌, if◌then◌else◌}

abbrev pub Map : Type 0 → Type 0
Map V = List (ℕ × V)

module _ {V : Type 0} where
  unfoldable pub find : ℕ → Map V → Option V
  find k [] = none
  find k ((j, v) ∷ m) = if j == k then some v else find k m

  unfoldable pub put : ℕ → V → Map V → Map V
  put k v [] = (k, v) ∷ []
  put k v ((j, w) ∷ m) =
      if ltb k j then (k, v) ∷ (j, w) ∷ m else if j == k then (k, v) ∷ m else (j, w) ∷ put k v m

  unfoldable pub erase : ℕ → Map V → Map V
  erase k [] = []
  erase k ((j, v) ∷ m) = let rest = erase k m in if j == k then rest else (j, v) ∷ rest

  -- The keys rise, from `lo` on.
  abbrev pub SortedFrom : ℕ → Map V → Type 0
  SortedFrom lo [] = Unit {0}
  SortedFrom lo ((j, v) ∷ m) = (lo ≤ j) × SortedFrom (suc j) m

  pub SortedFrom-mono : (lo lo' : ℕ) (m : Map V) → lo' ≤ lo → SortedFrom lo m → SortedFrom lo' m
  SortedFrom-mono lo lo' [] h s = tt
  SortedFrom-mono lo lo' ((j, v) ∷ m) h s = (omega arith, s.1)

  pub find-put :
      (k j : ℕ) (v : V) (m : Map V) → find j (put k v m) ≡ (if k == j then some v else find j m)
  unfolding find put
  find-put k j v [] = refl
  find-put k j v ((i, w) ∷ m) = ground (arith, find-put k j v m)

  pub find-erase : (k j : ℕ) (m : Map V) → find j (erase k m) ≡ (if k == j then none else find j m)
  unfolding find erase
  find-erase k j [] = ground arith
  find-erase k j ((i, w) ∷ m) = ground (arith, find-erase k j m)

  pub find-below : (k lo : ℕ) (m : Map V) → k < lo → SortedFrom lo m → find k m ≡ none
  unfolding find
  find-below k lo [] h s = refl
  find-below k lo ((j, v) ∷ m) h s = ground (arith, find-below k (suc j) m)

  pub put-SortedFrom :
      (lo k : ℕ) (v : V) (m : Map V) → lo ≤ k → SortedFrom lo m → SortedFrom lo (put k v m)
  unfolding put
  put-SortedFrom lo k v [] h s = (h, tt)
  put-SortedFrom lo k v ((j, w) ∷ m) h s =
      ground (arith, put-SortedFrom (suc j) k v m, SortedFrom-mono (suc j) (suc k) m)

  pub erase-SortedFrom : (lo k : ℕ) (m : Map V) → SortedFrom lo m → SortedFrom lo (erase k m)
  unfolding erase
  erase-SortedFrom lo k [] s = tt
  erase-SortedFrom lo k ((j, w) ∷ m) s =
      ground (arith, erase-SortedFrom (suc j) k m, SortedFrom-mono (suc j) lo (erase k m))

  pub erase-below : (k lo : ℕ) (m : Map V) → k < lo → SortedFrom lo m → erase k m ≡ m
  unfolding erase
  erase-below k lo [] h s = refl
  erase-below k lo ((j, v) ∷ m) h s = ground (arith, erase-below k (suc j) m)

-- `m.count(k)`, `it != m.end()`.
abbrev pub is_there {ℓ} : {A : Type ℓ} → Option A → Bool
is_there none = false
is_there (some a) = true

module _ {V : Type 0} where
  -- Every key is below `hi`.
  abbrev pub KeysBelow : ℕ → Map V → Type 0
  KeysBelow hi [] = Unit {0}
  KeysBelow hi ((j, v) ∷ m) = (j < hi) × KeysBelow hi m

  pub KeysBelow-snoc :
      (hi hi' k : ℕ) (v : V) (m : Map V)
      → KeysBelow hi m
      → hi ≤ hi'
      → k < hi'
      → KeysBelow hi' (m ++ (k, v) ∷ [])
  KeysBelow-snoc hi hi' k v [] b h l = (l, tt)
  KeysBelow-snoc hi hi' k v ((j, w) ∷ m) b h l =
      (omega (arith, b.0), KeysBelow-snoc hi hi' k v m b.1 h l)

  pub KeysBelow-mono : (hi hi' : ℕ) (m : Map V) → hi ≤ hi' → KeysBelow hi m → KeysBelow hi' m
  KeysBelow-mono hi hi' [] h b = tt
  KeysBelow-mono hi hi' ((j, v) ∷ m) h b = (omega (arith, b.0), KeysBelow-mono hi hi' m h b.1)

  pub find-above : (k : ℕ) (m : Map V) → KeysBelow k m → find k m ≡ none
  unfolding find
  find-above k [] b = refl
  find-above k ((j, v) ∷ m) b = ground (arith, find-above k m)

  pub put-end : (k : ℕ) (v : V) (m : Map V) → KeysBelow k m → put k v m ≡ m ++ (k, v) ∷ []
  unfolding put
  put-end k v [] b = refl
  put-end k v ((j, w) ∷ m) b = ground (arith, put-end k v m)
