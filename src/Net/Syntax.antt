-- ===== src/Net/Syntax.antt =====
-- The syntax of addresses and host names: lib/netaddr_pure.cpp. An octet has three digits at most, so
-- its `int` stays below 1000.
pub mod Reads
pub mod V6
use crate.Base.{
  Bool, Option, Text, [], all, any, cut_at, decimal_value, drop_open, false, head_or, if◌then◌else◌,
  is_alnum, is_digit, is_empty, last_or, leb, length, ltb, none, not, some, span_upto, split_on,
  suc, true, zero, ℕ, ◌&&◌, ◌==◌, ◌||◌, ◌∷◌,
}

unfoldable pub is_v4_octet : Text → Bool
is_v4_octet s =
    if is_empty s || ltb 3 (length s)
    then false
    else if not (all is_digit s)
    then false
    else leb (decimal_value s) 255

-- The loop with `k` dots still to come.
unfoldable pub v4_from : ℕ → Text → Bool
unfolding is_v4_octet
v4_from zero s = is_v4_octet s
v4_from (suc k) s = elim (cut_at b'.' s) [
  | none ↦ false
  | some (octet, rest) ↦ is_v4_octet octet && v4_from k rest
]

unfoldable pub is_v4 : Text → Bool
unfolding v4_from
is_v4 s = v4_from 3 s

abbrev pub is_hex : ℕ → Bool
is_hex c = is_digit c || ((leb b'a' c && leb c b'f') || (leb b'A' c && leb c b'F'))

-- `sawDoubleColon` and `groups` at the end of the loop, `none` for `return false`.
abbrev pub V6State : Type 0
V6State = Option (Bool × ℕ)

abbrev pub ends_group : Text → Bool
ends_group [] = true
ends_group (c ∷ s) = c == b':'

-- The two branches of the loop's body at a colon, and the one at a group; `next` is the rest of the
-- loop.
abbrev pub colon_step : (Text → Bool → Bool → ℕ → V6State) → Text → Bool → Bool → ℕ → V6State
colon_step next [] saw prev groups = none
colon_step next (d ∷ t) saw prev groups =
    if d == b':'
    then (if saw then none else next t true false groups)
    else if prev
    then next (d ∷ t) saw false groups
    else none

abbrev pub group_step : (Text → Bool → Bool → ℕ → V6State) → Text × Text → Bool → ℕ → V6State
group_step next (digits, rest) saw groups =
    if is_empty digits
    then none
    else if ends_group rest
    then next rest saw true (suc groups)
    else none

-- Each round reads a byte, so as many rounds as bytes are enough.
unfoldable pub v6_loop : ℕ → Text → Bool → Bool → ℕ → V6State
unfolding span_upto
v6_loop fuel [] saw prev groups = some (saw, groups)
v6_loop zero (c ∷ s) saw prev groups = none
v6_loop (suc fuel) (c ∷ s) saw prev groups =
    if c == b':'
    then colon_step (v6_loop fuel) s saw prev groups
    else group_step (v6_loop fuel) (span_upto is_hex 4 (c ∷ s)) saw groups

abbrev pub enough_groups : V6State → Bool
enough_groups none = false
enough_groups (some (saw, groups)) = if saw then leb groups 7 else groups == 8

unfoldable pub is_v6 : Text → Bool
unfolding v6_loop
is_v6 s = if is_empty s then false else enough_groups (v6_loop (length s) s false false 0)

unfoldable pub looks_like_v4_shape : Text → Bool
looks_like_v4_shape s =
    if is_empty s then false else all (λ c. c == b'.' || is_digit c) s && any (λ c. c == b'.') s

abbrev pub is_label_char : ℕ → Bool
is_label_char c = is_alnum c || c == b'-'

unfoldable pub is_label : Text → Bool
is_label label =
    if is_empty label || ltb 63 (length label)
    then false
    else if not (is_alnum (head_or 0 label)) || not (is_alnum (last_or 0 label))
    then false
    else all is_label_char label

-- The labels that the loop sees: none behind a dot that ends the name.
unfoldable pub is_hostname : Text → Bool
unfolding is_label
is_hostname s =
    if is_empty s || ltb 253 (length s) then false else all is_label (drop_open (split_on b'.' s))
