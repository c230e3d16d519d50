-- ===== src/Base/Ranges.antt =====
-- Statements about every number of a range, and tables checked by evaluation.
use Prim.Native.Nat.{ℕ, zero, suc, ◌+◌, ◌<◌, ◌≤◌}
use mathlib.Core.Path.{◌≡◌, sym, subst}
use mathlib.Core.Bool.{Bool, true, ◌&&◌}
use native.Mathlib.Omega.{arith}
use native.Mathlib.Decide.{ℕ_discrete}

abbrev pub Between {κ} : (ℕ → Type κ) → ℕ → ℕ → Type κ
Between P lo hi = (b : ℕ) → lo ≤ b → b < hi → P b

module _ {κ} (P : ℕ → Type κ) where
  pub Between-nil : (a : ℕ) → Between P a a
  Between-nil a b lo hi = absurd (omega arith)

  pub Between-cons : (a hi : ℕ) → P a → Between P (a + 1) hi → Between P a hi
  Between-cons a hi p rest b l h = elim (ℕ_discrete b a) [
    | yes e ↦ subst P (sym e) p
    | no ne ↦ rest b (omega arith) h
  ]

-- Every value below a bound, tested by evaluation.
unfoldable pub all_below : ℕ → (ℕ → Bool) → Bool
all_below zero test = true
all_below (suc hi) test = all_below hi test && test hi

pub all_below_sound :
    (hi : ℕ) (test : ℕ → Bool) (b : ℕ) → b < hi → all_below hi test ≡ true → test b ≡ true
unfolding all_below
all_below_sound zero test b below h = absurd (omega arith)
all_below_sound (suc hi) test b below h = ground (arith, all_below_sound hi test b)
