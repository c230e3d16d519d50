-- ===== src/Registry/JidOwners/Parsed.antt =====
-- Each registry of jail owners that the parser returns can be written and read back:
-- lib/jid_owner_registry_pure.cpp.
use crate.Base.{
  >>=-eq-ok, All, Bool, Bool-cases, List, Map, Option, Text, [], add_front, arith, fail_if-then,
  false, find, has, inl, inr, is_empty, is_there, leb, ltb, none, ok, ok_injective, put, refl, some,
  split_on, subst, suc, true, ℕ, ◌+◌, ◌==◌, ◌||◌, ◌↔◌, ◌∷◌, ◌≡◌, ◌≤◌,
}
use crate.Registry.JidOwners.{
  Entry, serialize, parse, parse_lines, parse_line, add_columns, is_comment, parse_decimal, number,
  in_jid_range, ParseError, bad_columns, jid_range, uid_range, duplicate_jid,
}
use crate.Registry.JidOwners.File.{IsColumn, IsFrom, parse-serialize_owners}

add_front-free :
    (b c : ℕ) (ps : List Text)
    → (c == b) ≡ false
    → All (λ p. has b p ≡ false) ps
    → All (λ p. has b p ≡ false) (add_front c ps)
add_front-free b c [] other h = (ground (arith, other), tt)
add_front-free b c (p ∷ ps) other h = (ground (arith, other, h.0), h.1)

-- The pieces of a text have no separator, and no byte that the text has not.
pieces_free : (sep : ℕ) (s : Text) → All (λ p. has sep p ≡ false) (split_on sep s)
pieces_free sep [] = (refl, tt)
pieces_free sep (c ∷ s) = elim (Bool-cases (c == sep)) [
  | inl at ↦ rw at (refl, pieces_free sep s)
  | inr other ↦ rw other (add_front-free sep c (split_on sep s) other (pieces_free sep s))
]

pieces_plain :
    (sep b : ℕ) (s : Text) → has b s ≡ false → All (λ p. has b p ≡ false) (split_on sep s)
pieces_plain sep b [] h = (refl, tt)
pieces_plain sep b (c ∷ s) h =
    let here : (c == b) ≡ false = ground (arith, h) in
    let later : has b s ≡ false = ground (arith, h) in
    elim (Bool-cases (c == sep)) [
      | inl at ↦ rw at (refl, pieces_plain sep b s later)
      | inr other ↦ rw other (add_front-free b c (split_on sep s) here (pieces_plain sep b s later))
    ]

IsFrom-mono : (lo hi : ℕ) (m : Map Entry) → lo ≤ hi → IsFrom hi m → IsFrom lo m
IsFrom-mono lo hi [] le h = tt
IsFrom-mono lo hi ((j, e) ∷ m) le (low, top, uid, name, rest) =
    (omega (arith, low, le), top, uid, name, rest)

put-IsFrom :
    (lo j : ℕ) (e : Entry) (m : Map Entry)
    → lo ≤ j
    → j ≤ 65535
    → e.uid ≤ 4294967295
    → IsColumn e.name
    → IsColumn e.path
    → IsFrom lo m
    → IsFrom lo (put j e m)
unfolding put
put-IsFrom lo j e [] low high small name path h = (low, high, small, name, (path, tt))
put-IsFrom lo j e ((i, w) ∷ m) low high small name path (at, top, uid, wname, (wpath, rest)) =
    elim (Bool-cases (ltb j i)) [
      | inl before ↦
          rw before (
            low,
            high,
            small,
            name,
            (path, (ground (arith, before), top, uid, wname, (wpath, rest))),
          )
      | inr behind ↦ elim (Bool-cases (i == j)) [
        | inl same ↦
            rw (behind, same)
              (
                low,
                high,
                small,
                name,
                (path, IsFrom-mono (suc j) (suc i) m (ground (arith, same)) rest),
              )
        | inr other ↦
            rw (behind, other)
              (
                at,
                top,
                uid,
                wname,
                (
                  wpath,
                  put-IsFrom (suc i) j e m (ground (arith, behind, other)) high small name path
                      rest,
                ),
              )
      ]
    ]

number_sound :
    (e : ParseError) (fits : ℕ → Bool) (o : Option ℕ) (n : ℕ)
    → number e fits o ≡ ok n
    → fits n ≡ true
number_sound e fits none n h = cc
number_sound e fits (some k) n h = elim (Bool-cases (fits k)) [
  | inl good ↦ subst (λ x. fits x ≡ true) (ok_injective (rw good at h)) good
  | inr bad ↦ let refused = rw bad at h in cc
]

-- A line keeps the registry one that can be written.
add_columns-IsFrom :
    (n : ℕ) (out next : Map Entry) (cs : List Text)
    → All (λ c. has 9 c ≡ false) cs
    → All (λ c. has 10 c ≡ false) cs
    → IsFrom 1 out
    → add_columns n out cs ≡ ok next
    → IsFrom 1 next
unfolding add_columns
add_columns-IsFrom n out next (c0 ∷ c1 ∷ c2 ∷ c3 ∷ []) tabs lines f h =
    let (filled, h₁) =
      fail_if-then (is_empty c0 || (is_empty c1 || (is_empty c2 || is_empty c3))) (bad_columns n) _
        next h in
    let (j, jid, h₂) = >>=-eq-ok (number (jid_range n) in_jid_range (parse_decimal c0)) _ h₁ in
    let (u, uid, h₃) =
      >>=-eq-ok (number (uid_range n) (λ k. leb k 4294967295) (parse_decimal c1)) _ h₂ in
    let (_, h₄) = fail_if-then (is_there (find j out)) (duplicate_jid n j) _ next h₃ in
    let range = number_sound (jid_range n) in_jid_range (parse_decimal c0) j jid in
    let small = number_sound (uid_range n) (λ k. leb k 4294967295) (parse_decimal c1) u uid in
    subst (IsFrom 1) (ok_injective h₄) (
      put-IsFrom 1 j (record { uid = u; name = c2; path = c3 }) out (ground (arith, range))
        (ground (arith, range)) (ground (arith, small))
        (ground (arith, filled), tabs.1.1.0, lines.1.1.0)
        (ground (arith, filled), tabs.1.1.1.0, lines.1.1.1.0) f)
add_columns-IsFrom n out next _ tabs lines f h = cc

parse_line-IsFrom :
    (n : ℕ) (out next : Map Entry) (line : Text)
    → has 10 line ≡ false
    → IsFrom 1 out
    → parse_line n out line ≡ ok next
    → IsFrom 1 next
unfolding parse_line
parse_line-IsFrom n out next line plain f h = elim (Bool-cases (is_comment line)) [
  | inl skipped ↦ subst (IsFrom 1) (ok_injective (rw skipped at h)) f
  | inr data_line ↦
      add_columns-IsFrom n out next (split_on 9 line) (pieces_free 9 line)
        (pieces_plain 9 10 line plain) f (rw data_line at h)
]

parse_lines-IsFrom :
    (n : ℕ) (out m : Map Entry) (ls : List Text)
    → All (λ l. has 10 l ≡ false) ls
    → IsFrom 1 out
    → parse_lines n out ls ≡ ok m
    → IsFrom 1 m
unfolding parse_lines
parse_lines-IsFrom n out m [] plain f h = subst (IsFrom 1) (ok_injective h) f
parse_lines-IsFrom n out m (l ∷ ls) plain f h =
    let (next, line, rest) = >>=-eq-ok (parse_line n out l) (λ o. parse_lines (n + 1) o ls) h in
    parse_lines-IsFrom (n + 1) next m ls plain.1 (parse_line-IsFrom n out next l plain.0 f line)
      rest

pub parse-IsFrom : (text : Text) (m : Map Entry) → parse text ≡ ok m → IsFrom 1 m
unfolding parse
parse-IsFrom text m h = parse_lines-IsFrom 1 [] m (split_on 10 text) (pieces_free 10 text) tt h

-- A registry is read back from the file that is written for it exactly if its jids are in order and
-- from 1 to 65535, its uids have 32 bits, and its names and paths are not empty and have neither a tab
-- nor a newline.
pub parse-serialize_iff : (m : Map Entry) → (parse (serialize m) ≡ ok m) ↔ IsFrom 1 m
parse-serialize_iff m = (parse-IsFrom (serialize m) m, parse-serialize_owners m)
