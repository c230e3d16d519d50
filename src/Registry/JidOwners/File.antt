-- ===== src/Registry/JidOwners/File.antt =====
-- The file of the jail owners is read back as the registry that was written:
-- lib/jid_owner_registry_pure.cpp.
use crate.Base.{
  All, KeysBelow, KeysBelow-mono, KeysBelow-snoc, Map, Text, [], all, ap, append-nil, append_assoc,
  arith, decimal, decimal-digits, false, find, find-above, has, has-append, has-decimal, is_digit,
  is_empty, is_empty-decimal, leb, ltb, map, none, ok, put, put-end, refl, split_on,
  split_on-append, split_on-piece, split_unlines, suc, true, ℕ, ◌++◌, ◌+◌, ◌==◌, ◌∙◌, ◌∷◌, ◌≡◌, ◌≤◌,
}
use crate.Registry.JidOwners.{
  Entry, entry_line, serialize, parse, parse_lines, parse_line, add_columns, is_comment,
}
use crate.Registry.JidOwners.Decimals.{parse_decimal-decimal}

-- A name or a path that fits a column. The validator of a jail's path, in lib/privops_pure.cpp, lets a
-- tab through, so a path may fail to be one.
abbrev pub IsColumn : Text → Type 0
IsColumn s = (is_empty s ≡ false) × (has 9 s ≡ false) × (has 10 s ≡ false)

-- Jids from `lo` to 65535 in order, 32-bit uids, and columns.
abbrev pub IsFrom : ℕ → Map Entry → Type 0
IsFrom lo [] = Unit {0}
IsFrom lo ((j, e) ∷ m) =
    (lo ≤ j)
    × (j ≤ 65535)
    × (e.uid ≤ 4294967295)
    × IsColumn e.name
    × (IsColumn e.path × IsFrom (suc j) m)

has-tab :
    (c : ℕ) (s t : Text)
    → (9 == c) ≡ false
    → has c s ≡ false
    → has c t ≡ false
    → has c (s ++ 9 ∷ t) ≡ false
has-tab c s t k h g = has-append c s (9 ∷ t) h (ground arith)

line_plain :
    (j : ℕ) (e : Entry) → IsColumn e.name → IsColumn e.path → has 10 (entry_line (j, e)) ≡ false
unfolding entry_line
line_plain j e n p = has-tab 10 (decimal j) _ refl (has-decimal 10 j refl) (
    has-tab 10 (decimal e.uid) _ refl (has-decimal 10 e.uid refl)
      (has-tab 10 e.name e.path refl n.2 p.2))

split_line :
    (j : ℕ) (e : Entry)
    → IsColumn e.name
    → IsColumn e.path
    → split_on 9 (entry_line (j, e)) ≡ decimal j ∷ decimal e.uid ∷ e.name ∷ e.path ∷ []
unfolding entry_line
split_line j e n p =
    split_on-append 9 (decimal j) _ (has-decimal 9 j refl)
    ∙ ap (◌∷◌ (decimal j)) (
        split_on-append 9 (decimal e.uid) _ (has-decimal 9 e.uid refl)
        ∙ ap (◌∷◌ (decimal e.uid))
            (split_on-append 9 e.name e.path n.1 ∙ ap (◌∷◌ e.name) (split_on-piece 9 e.path p.1)))

digits_first :
    (s t : Text) → all is_digit s ≡ true → is_empty s ≡ false → is_comment (s ++ t) ≡ false
digits_first [] t h k = cc
digits_first (c ∷ s) t h k = ground arith

parse_line-entry :
    (n j : ℕ) (out : Map Entry) (e : Entry)
    → 1 ≤ j
    → j ≤ 65535
    → e.uid ≤ 4294967295
    → IsColumn e.name
    → IsColumn e.path
    → find j out ≡ none
    → parse_line n out (entry_line (j, e)) ≡ ok (put j e out)
unfolding parse_line add_columns
parse_line-entry n j out e lo hi small name path free =
    let kept : is_comment (entry_line (j, e)) ≡ false =
      unfold entry_line in digits_first (decimal j) _ (decimal-digits j) (is_empty-decimal j) in
    let first : ltb 0 j ≡ true = ground arith in
    let last : leb j 65535 ≡ true = ground arith in
    let fits : leb e.uid 4294967295 ≡ true = ground arith in
    rw kept (
      rw (split_line j e name path) (
        rw (is_empty-decimal j, is_empty-decimal e.uid, name.0, path.0)
          (rw (parse_decimal-decimal j (omega arith), parse_decimal-decimal e.uid (omega arith))
            (rw (first, last, fits) (rw free refl)))))

parse_lines-entries :
    (n lo : ℕ) (acc rest : Map Entry)
    → 1 ≤ lo
    → KeysBelow lo acc
    → IsFrom lo rest
    → parse_lines n acc (map entry_line rest ++ [] ∷ []) ≡ ok (acc ++ rest)
unfolding parse_lines
parse_lines-entries n lo acc [] p b f = unfold parse_line in rw (append-nil acc)
parse_lines-entries n lo acc ((j, e) ∷ rest) p b (low, high, small, name, (path, f)) =
    let below : KeysBelow j acc = KeysBelow-mono lo j acc low b in
    let one : parse_line n acc (entry_line (j, e)) ≡ ok (acc ++ (j, e) ∷ []) =
      parse_line-entry n j acc e (omega arith) high small name path (find-above j acc below)
      ∙ ap ok (put-end j e acc below) in
    rw one (
      parse_lines-entries (n + 1) (suc j) (acc ++ (j, e) ∷ []) rest (omega arith)
        (KeysBelow-snoc lo (suc j) j e acc b (omega arith) (omega arith)) f
      ∙ ap ok (append_assoc acc ((j, e) ∷ []) rest))

lines_plain :
    (lo : ℕ) (m : Map Entry) → IsFrom lo m → All (λ l. has 10 l ≡ false) (map entry_line m)
lines_plain lo [] f = tt
lines_plain lo ((j, e) ∷ m) (low, high, small, name, (path, f)) =
    (line_plain j e name path, lines_plain (suc j) m f)

-- A registry with jids from 1 to 65535, 32-bit uids, and names and paths that are not empty and have
-- no tab or newline, is read back from the file that is written for it.
pub parse-serialize_owners : (m : Map Entry) → IsFrom 1 m → parse (serialize m) ≡ ok m
unfolding parse serialize
parse-serialize_owners m f =
    rw (split_unlines (map entry_line m) (lines_plain 1 m f))
      (parse_lines-entries 1 1 [] m (omega arith) tt f)
