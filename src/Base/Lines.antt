-- ===== src/Base/Lines.antt =====
-- Lines of a text: `std::getline` in a loop, and the text that writes a newline behind each line.
use Prim.Native.Nat.{ℕ}
use mathlib.Core.Path.{◌≡◌, refl, ap, ◌∙◌}
use mathlib.Core.Bool.{Bool, true, false}
use mathlib.Core.List.{List, [], ◌∷◌, ◌++◌}
use native.Mathlib.Omega.{arith}
use crate.Base.Tests.{◌==◌, if◌then◌else◌, &&_elim}
use native.Mathlib.Decide.{ℕ_discrete}
use crate.Base.Lists.{All, all, is_empty, last_or, drop_last}
use crate.Base.Bytes.{Text, has, split_on, split_on-append}

-- The last piece is no line if nothing stands behind the last newline.
abbrev pub drop_open : List Text → List Text
drop_open [] = []
drop_open (p ∷ []) = if is_empty p then [] else p ∷ []
drop_open (p ∷ q ∷ ps) = p ∷ drop_open (q ∷ ps)

unfoldable pub get_lines : Text → List Text
get_lines s = drop_open (split_on 10 s)

abbrev pub unlines : List Text → Text
unlines [] = []
unlines (l ∷ ls) = l ++ 10 ∷ unlines ls

pub split_unlines :
    (ls : List Text) → All (λ l. has 10 l ≡ false) ls → split_on 10 (unlines ls) ≡ ls ++ [] ∷ []
split_unlines [] h = refl
split_unlines (l ∷ ls) h = split_on-append 10 l (unlines ls) h.0 ∙ ap (◌∷◌ l) (split_unlines ls h.1)

drop_open-append : (ls : List Text) → drop_open (ls ++ [] ∷ []) ≡ ls
drop_open-append [] = refl
drop_open-append (l ∷ []) = refl
drop_open-append (l ∷ k ∷ ls) = ap (◌∷◌ l) (drop_open-append (k ∷ ls))

pub get_lines-unlines :
    (ls : List Text) → All (λ l. has 10 l ≡ false) ls → get_lines (unlines ls) ≡ ls
unfolding get_lines
get_lines-unlines ls h = ap drop_open (split_unlines ls h) ∙ drop_open-append ls

-- `if (!line.empty() && line.back() == '\r') line.pop_back();`.
abbrev pub strip_cr : Text → Text
strip_cr line = if last_or 0 line == 13 then drop_last line else line

pub last_or-has :
    (c d : ℕ) (s : Text) → (d == c) ≡ false → has c s ≡ false → (last_or d s == c) ≡ false
last_or-has c d [] h k = h
last_or-has c d (b ∷ s) h k = ground (arith, last_or-has c b s)

pub strip_cr-has : (line : Text) → has 13 line ≡ false → strip_cr line ≡ line
strip_cr-has line h = ground (arith, last_or-has 13 0 line refl h)

-- A byte that fails a test which every byte of a text passes is not in it.
pub has-all : (p : ℕ → Bool) (c : ℕ) (s : Text) → p c ≡ false → all p s ≡ true → has c s ≡ false
has-all p c [] h k = refl
has-all p c (b ∷ s) h k =
    let (pb, ps) = &&_elim (p b) (all p s) k in
    elim (ℕ_discrete b c) [ yes e ↦ cc (ap p e) | no ne ↦ ground (arith, ne, has-all p c s h ps) ]
