-- ===== src/Privops/Fields/Shapes.antt =====
-- Jail names, absolute paths, host names and rule texts, described without their validators.
use crate.Base.{
  All, Text, [], codes, head_or, last_or, length, split_on, ℕ, ◌++◌, ◌∷◌, ◌≡◌, ◌≢◌, ◌≤◌, ◌⊎◌,
}

abbrev pub IsAlnum : ℕ → Type 0
IsAlnum c = ((48 ≤ c) × (c ≤ 57)) ⊎ (((65 ≤ c) × (c ≤ 90)) ⊎ ((97 ≤ c) × (c ≤ 122)))

-- A letter, a digit, `.`, `_` or `-`.
abbrev pub IsNameByte : ℕ → Type 0
IsNameByte c = IsAlnum c ⊎ ((c ≡ 46) ⊎ ((c ≡ 95) ⊎ (c ≡ 45)))

abbrev pub IsJailName : Text → Type 0
IsJailName s = (s ≢ []) × (length s ≤ 200) × (s ≢ codes ".") × (s ≢ codes "..") × All IsNameByte s

abbrev pub NoneOf : Text → Text → Type 0
NoneOf marks s = All (λ c. All (λ m. c ≢ m) marks) s

-- A segment `..` behind a slash.
abbrev pub HasUp : Text → Type 0
HasUp p =
    (front : Text) × (back : Text) × (p ≡ front ++ (codes "/.." ++ back))
    × ((back ≡ []) ⊎ ((rest : Text) × (back ≡ 47 ∷ rest)))

abbrev pub IsSafePath : Text → Type 0
IsSafePath p =
    ((rest : Text) × (p ≡ 47 ∷ rest))
    × (length p ≤ 1024)
    × (¬ HasUp p)
    × NoneOf (codes ";`$|&<>\\\n\r*?\"'") p

abbrev pub IsHostByte : ℕ → Type 0
IsHostByte c = IsAlnum c ⊎ (c ≡ 45)

abbrev pub IsLabel : Text → Type 0
IsLabel l = (l ≢ []) × (length l ≤ 63) × (head_or 0 l ≢ 45) × (last_or 0 l ≢ 45) × All IsHostByte l

-- Labels between dots, or nothing.
abbrev pub IsHostname : Text → Type 0
IsHostname h = (h ≡ []) ⊎ ((length h ≤ 253) × All IsLabel (split_on 46 h))

abbrev pub IsPlain : Text → Type 0
IsPlain s = (length s ≤ 1024) × NoneOf (codes "\n\r`$;\\") s
