-- ===== src/Base/Sorting.antt =====
-- `std::sort` with a comparison: an insertion sort, in which elements that compare equal keep their
-- order.
use Prim.Native.Nat.{ℕ, suc, ◌≤◌}
use mathlib.Core.Path.{◌≡◌, refl, ap, ◌∙◌}
use mathlib.Core.Bool.{Bool, ◌&&◌, ◌||◌}
use mathlib.Core.List.{List, [], ◌∷◌}
use native.Mathlib.Omega.{arith}
use crate.Base.Tests.{if◌then◌else◌, ltb, leb, Bool-cases}
use mathlib.Core.Bool.{true, false}
use mathlib.Core.Logic.{inl, inr}
use crate.Base.Lists.{all, any, length, all_mono}

module _ {A : Type 0} (before : A → A → Bool) where
  unfoldable pub insert_sorted : A → List A → List A
  insert_sorted x [] = x ∷ []
  insert_sorted x (y ∷ ys) =
      let rest = insert_sorted x ys in if before y x then y ∷ rest else x ∷ y ∷ ys

  unfoldable pub sort_by : List A → List A
  sort_by [] = []
  sort_by (x ∷ xs) = insert_sorted x (sort_by xs)

  pub all-insert_sorted :
      (p : A → Bool) (x : A) (ys : List A) → all p (insert_sorted x ys) ≡ (p x && all p ys)
  unfolding insert_sorted
  all-insert_sorted p x [] = refl
  all-insert_sorted p x (y ∷ ys) = ground (arith, all-insert_sorted p x ys)

  -- Sorting changes neither what holds of all elements, nor what holds of some, nor the number.
  pub all-sort_by : (p : A → Bool) (xs : List A) → all p (sort_by xs) ≡ all p xs
  unfolding sort_by
  all-sort_by p [] = refl
  all-sort_by p (x ∷ xs) = all-insert_sorted p x (sort_by xs) ∙ ap (◌&&◌ (p x)) (all-sort_by p xs)

  any-insert_sorted :
      (p : A → Bool) (x : A) (ys : List A) → any p (insert_sorted x ys) ≡ (p x || any p ys)
  unfolding insert_sorted
  any-insert_sorted p x [] = refl
  any-insert_sorted p x (y ∷ ys) = ground (arith, any-insert_sorted p x ys)

  pub any-sort_by : (p : A → Bool) (xs : List A) → any p (sort_by xs) ≡ any p xs
  unfolding sort_by
  any-sort_by p [] = refl
  any-sort_by p (x ∷ xs) = any-insert_sorted p x (sort_by xs) ∙ ap (◌||◌ (p x)) (any-sort_by p xs)

  length-insert_sorted : (x : A) (ys : List A) → length (insert_sorted x ys) ≡ suc (length ys)
  unfolding insert_sorted
  length-insert_sorted x [] = refl
  length-insert_sorted x (y ∷ ys) = ground (arith, length-insert_sorted x ys)

  pub length-sort_by : (xs : List A) → length (sort_by xs) ≡ length xs
  unfolding sort_by
  length-sort_by [] = refl
  length-sort_by (x ∷ xs) =
      length-insert_sorted x (sort_by xs) ∙ ap (λ (n : ℕ). suc n) (length-sort_by xs)

-- Elements whose keys do not fall.
module _ {A : Type 0} (key : A → ℕ) where
  unfoldable pub is_rising : List A → Bool
  is_rising [] = true
  is_rising (x ∷ xs) = all (λ y. leb (key x) (key y)) xs && is_rising xs

  module _ (before : A → A → Bool) (down : (x y : A) → before x y ≡ true → key x ≤ key y)
      (up : (x y : A) → before x y ≡ false → key y ≤ key x) where
    insert_sorted-is_rising :
        (x : A) (ys : List A) → is_rising ys ≡ true → is_rising (insert_sorted before x ys) ≡ true
    unfolding insert_sorted is_rising
    insert_sorted-is_rising x [] h = refl
    insert_sorted-is_rising x (y ∷ ys) h = elim (Bool-cases (before y x)) [
      | inl e ↦ rw e (
          ground (
            arith,
            insert_sorted-is_rising x ys,
            all-insert_sorted before (λ z. leb (key y) (key z)) x ys,
            down y x e,
          ))
      | inr e ↦ rw e (
          ground (
            arith,
            all_mono (λ z. leb (key y) (key z)) (λ z. leb (key x) (key z)) ys
                (λ z k. ground (arith, up y x e)),
            up y x e,
          ))
    ]

    -- A sort whose comparison respects the keys puts them in order.
    pub sort_by-is_rising : (xs : List A) → is_rising (sort_by before xs) ≡ true
    unfolding sort_by is_rising
    sort_by-is_rising [] = refl
    sort_by-is_rising (x ∷ xs) =
        insert_sorted-is_rising x (sort_by before xs) (sort_by-is_rising xs)

pub sort_by-ltb : (xs : List ℕ) → is_rising (λ x. x) (sort_by ltb xs) ≡ true
sort_by-ltb xs = sort_by-is_rising (λ x. x) ltb (λ x y h. ground arith) (λ x y h. ground arith) xs
