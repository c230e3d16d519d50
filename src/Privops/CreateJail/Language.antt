-- ===== src/Privops/CreateJail/Language.antt =====
-- The parameter lists that `create_jail` is meant to take, described without the validator: blanks
-- between `key=value` tokens, each key with its own values (lib/privops_pure.h, ParamKind).
use crate.Base.{
  All, List, Text, [], codes, decimal_value, length, ℕ, ◌++◌, ◌<◌, ◌^◌, ◌∷◌, ◌≡◌, ◌≢◌, ◌≤◌, ◌⊎◌,
}

abbrev pub OneOf : Text → List Text → Type 0
OneOf v [] = ⊥
OneOf v (w ∷ ws) = (v ≡ w) ⊎ OneOf v ws

abbrev pub IsDigit : ℕ → Type 0
IsDigit c = (48 ≤ c) × (c ≤ 57)

abbrev pub IsHexDigit : ℕ → Type 0
IsHexDigit c = IsDigit c ⊎ (((97 ≤ c) × (c ≤ 102)) ⊎ ((65 ≤ c) × (c ≤ 70)))

-- The blanks of the C locale: space, tab, newline, vertical tab, form feed, carriage return.
abbrev pub IsBlank : ℕ → Type 0
IsBlank c = (c ≡ 32) ⊎ ((9 ≤ c) × (c ≤ 13))

abbrev pub IsNumber : Text → Type 0
IsNumber s = (s ≢ []) × All IsDigit s

-- A group of the hexadecimal digits of a UUID.
abbrev pub IsGroup : ℕ → Text → Type 0
IsGroup n s = (length s ≡ n) × All IsHexDigit s

abbrev pub IsUuid : Text → Type 0
IsUuid s =
    (a : Text) × (b : Text) × (c : Text) × (d : Text) × (e : Text) × IsGroup 8 a
    × IsGroup 4 b
    × IsGroup 4 c
    × IsGroup 4 d
    × IsGroup 12 e
    × (s ≡ a ++ 45 ∷ (b ++ 45 ∷ (c ++ 45 ∷ (d ++ 45 ∷ e))))

abbrev pub flag_keys : List Text
flag_keys =
    codes "allow.raw_sockets"
    ∷ codes "allow.socket_af"
    ∷ codes "allow.sysvipc"
    ∷ codes "allow.mount"
    ∷ codes "allow.mount.zfs"
    ∷ codes "allow.quotas"
    ∷ codes "allow.set_hostname"
    ∷ codes "allow.chflags"
    ∷ codes "allow.mlock"
    ∷ []

abbrev pub IsFlagValue : Text → Type 0
IsFlagValue v = OneOf v (codes "0" ∷ codes "1" ∷ codes "true" ∷ codes "false" ∷ [])

abbrev pub IsStatfsValue : Text → Type 0
IsStatfsValue v = OneOf v (codes "0" ∷ codes "1" ∷ codes "2" ∷ [])

abbrev pub IsLevelValue : Text → Type 0
IsLevelValue v = OneOf v (codes "-1" ∷ codes "0" ∷ codes "1" ∷ codes "2" ∷ codes "3" ∷ [])

abbrev pub IsSmallNumber : Text → Type 0
IsSmallNumber v = IsNumber v × (length v ≤ 9)

abbrev pub IsWordNumber : Text → Type 0
IsWordNumber v = IsNumber v × ((length v ≤ 10) × (decimal_value v < 2 ^ 32))

abbrev pub IsParam : Text → Text → Type 0
IsParam key val =
    (OneOf key flag_keys × IsFlagValue val)
    ⊎ (((key ≡ codes "enforce_statfs") × IsStatfsValue val)
        ⊎ (((key ≡ codes "securelevel") × IsLevelValue val)
            ⊎ (((key ≡ codes "children.max") × IsSmallNumber val)
                ⊎ (((key ≡ codes "host.hostuuid") × IsUuid val)
                    ⊎ ((key ≡ codes "host.hostid") × IsWordNumber val)))))

abbrev pub NoBlank : Text → Type 0
NoBlank s = All (λ c. ¬ IsBlank c) s

-- A token ends where the text does, or at a blank.
abbrev pub EndsToken : Text → Type 0
EndsToken rest = (rest ≡ []) ⊎ ((c : ℕ) × ((s : Text) × (rest ≡ c ∷ s) × IsBlank c))

pub data IsParamList : Text → Type 0 where
  nothing : IsParamList []
  blank : {c : ℕ} {s : Text} → IsBlank c → IsParamList s → IsParamList (c ∷ s)
  param :
      {key val rest : Text}
      → IsParam key val
      → NoBlank (key ++ b'=' ∷ val)
      → EndsToken rest
      → IsParamList rest
      → IsParamList ((key ++ b'=' ∷ val) ++ rest)
