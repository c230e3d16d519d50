-- ===== src/Stack/Policy.antt =====
-- Numbers of the firewall rules of a network policy: `ipfwRuleNumbers`, `freePolicySlot` and
-- `policyRulesForBridge` of lib/stack_pure.cpp. `unsigned` has 32 bits.
pub mod Slots
use crate.Base.{
  Bool, List, Option, Text, [], codes, decimal_value, drop, false, get_lines, has, if◌then◌else◌,
  is_digit, is_empty, leb, length, ltb, none, not, some, sort_by, span_upto, starts_with, suc, true,
  zero, ℕ, ◌%◌, ◌&&◌, ◌++◌, ◌+◌, ◌-◌, ◌==◌, ◌^◌, ◌||◌, ◌∷◌,
}

unfoldable pub skip_spaces : Text → Text
skip_spaces [] = []
skip_spaces (c ∷ s) = let rest = skip_spaces s in if c == 32 then rest else c ∷ s

abbrev is_rule_end : Text → Bool
is_rule_end [] = true
is_rule_end (c ∷ s) = c == 32 || c == 9

abbrev rule_of : Text × Text → Option ℕ
rule_of (digits, rest) =
    let v = decimal_value digits in
    if is_empty digits || (v == 0 || ltb 65535 v)
    then none
    else if is_rule_end rest
    then some v
    else none

unfoldable pub rule_number : Text → Option ℕ
unfolding skip_spaces span_upto
rule_number line = rule_of (span_upto is_digit 6 (skip_spaces line))

unfoldable pub rule_numbers : List Text → List ℕ
unfolding rule_number
rule_numbers [] = []
rule_numbers (line ∷ lines) =
    let rest = rule_numbers lines in elim (rule_number line) [ none ↦ rest | some v ↦ v ∷ rest ]

unfoldable pub ipfw_rule_numbers : Text → List ℕ
unfolding rule_numbers get_lines
ipfw_rule_numbers output = rule_numbers (get_lines output)

-- `taken.lower_bound(slot)`, on the elements in rising order.
unfoldable pub lower_bound : ℕ → List ℕ → Option ℕ
lower_bound slot [] = none
lower_bound slot (x ∷ xs) = let rest = lower_bound slot xs in if ltb x slot then rest else some x

abbrev pub plus32 : ℕ → ℕ → ℕ
plus32 a b = (a + b) % 2 ^ 32

abbrev pub is_past : ℕ → Option ℕ → Bool
is_past last none = true
is_past last (some x) = ltb last x

-- The `for` loop, with as many rounds as there is fuel.
unfoldable pub policy_slot_loop : List ℕ → ℕ → ℕ → ℕ → ℕ → ℕ
unfolding lower_bound
policy_slot_loop taken end width zero slot = 0
policy_slot_loop taken end width (suc fuel) slot =
    let later = policy_slot_loop taken end width fuel (plus32 slot width) in
    let last = plus32 slot (width - 1) in
    if leb last end then (if is_past last (lower_bound slot taken) then slot else later) else 0

unfoldable pub free_policy_slot : List ℕ → ℕ → ℕ → ℕ → ℕ
unfolding policy_slot_loop sort_by
free_policy_slot used base end width =
    if width == 0 || ltb end base
    then 0
    else policy_slot_loop (sort_by ltb used) end width (suc (end - base)) base

-- What stands behind the first occurrence of a text.
unfoldable pub find_text : Text → Text → Option Text
find_text needle [] = if is_empty needle then some [] else none
find_text needle (c ∷ s) =
    let rest = find_text needle s in
    if starts_with needle (c ∷ s) then some (drop (length needle) (c ∷ s)) else rest

abbrev is_token_end : Option Text → Bool
is_token_end none = false
is_token_end (some []) = true
is_token_end (some (c ∷ s)) = c == 32 || (c == 9 || c == 13)

abbrev in_range : ℕ → ℕ → ℕ → Bool
in_range lo hi n = leb lo n && leb n hi

-- One line of the loop.
abbrev add_rule : Text → ℕ → ℕ → Text → Option ℕ → List ℕ → List ℕ
add_rule needle lo hi line none out = out
add_rule needle lo hi line (some n) out =
    if in_range lo hi n && (is_token_end (find_text needle line) && not (has n out))
    then out ++ n ∷ []
    else out

unfoldable pub policy_loop : Text → ℕ → ℕ → List Text → List ℕ → List ℕ
unfolding rule_number find_text
policy_loop needle lo hi [] out = out
policy_loop needle lo hi (line ∷ lines) out =
    policy_loop needle lo hi lines (add_rule needle lo hi line (rule_number line) out)

unfoldable pub policy_rules_for_bridge : Text → Text → ℕ → ℕ → List ℕ
unfolding policy_loop get_lines
policy_rules_for_bridge output bridge lo hi =
    if is_empty bridge
    then []
    else policy_loop (codes " via " ++ bridge) lo hi (get_lines output) []
