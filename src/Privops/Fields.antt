-- ===== src/Privops/Fields.antt =====
-- The checks of the fields of a privileged request: lib/privops_pure.cpp. An error names the text
-- that the code returns.
pub mod Shapes
pub mod Names
pub mod Paths
pub mod Hosts
use crate.Base.{
  Bool, List, Result, Text, [], all, any, codes, drop_open, fail_if, false, head_or, if◌then◌else◌,
  is_alnum, is_empty, last_or, length, ltb, not, ok, split_on, starts_with, text_eq, true, ℕ, ◌++◌,
  ◌==◌, ◌>>=◌, ◌>>◌, ◌||◌, ◌∷◌,
}

pub data FieldError : Type 0 where
  empty_jail_name long_jail_name reserved_jail_name bad_jail_name_char : FieldError
  long_hostname bad_hostname_char empty_label long_label hyphen_label : FieldError
  empty_path long_path relative_path dot_dot_path meta_path : FieldError
  empty_dataset long_dataset slash_first slash_last double_slash bad_dataset_char : FieldError
  empty_iface long_iface bad_iface_char : FieldError
  empty_rule long_rule many_lines meta_rule : FieldError
  empty_anchor long_anchor bad_anchor_char unknown_action : FieldError
  long_parameters not_key_value not_allowed_key bad_value : FieldError

abbrev pub Check : Type 0
Check = Result FieldError (Unit {0})

abbrev pub is_shell_meta : ℕ → Bool
is_shell_meta c = any (λ m. c == m) (codes ";`$|&<>\\\n\r*?\"'")

unfoldable pub has_dot_dot_segment : Text → Bool
has_dot_dot_segment p = any (λ s. text_eq s (codes "..")) (drop_open (split_on b'/' p))

abbrev pub k_kernel_jail_name : ℕ
k_kernel_jail_name = 200

abbrev pub is_name_byte : ℕ → Bool
is_name_byte c = is_alnum c || (c == b'.' || (c == b'_' || c == b'-'))

unfoldable pub validate_jail_name : Text → Check
validate_jail_name name = do
  fail_if (is_empty name) empty_jail_name
  fail_if (ltb k_kernel_jail_name (length name)) long_jail_name
  fail_if (text_eq name (codes ".") || text_eq name (codes "..")) reserved_jail_name
  fail_if (not (all is_name_byte name)) bad_jail_name_char

-- The tests at the end of a label.
unfoldable pub check_label : Text → Check
check_label label = do
  fail_if (is_empty label) empty_label
  fail_if (ltb 63 (length label)) long_label
  fail_if (head_or 0 label == b'-' || last_or 0 label == b'-') hyphen_label

-- The loop with the bytes of the open label, then the rest.
unfoldable pub hostname_loop : Text → Text → Check
unfolding check_label
hostname_loop label [] = check_label label
hostname_loop label (c ∷ h) = elim (c == b'.') [
  | true ↦ check_label label >> hostname_loop [] h
  | false ↦
      fail_if (not (is_alnum c || c == b'-')) bad_hostname_char >> hostname_loop (label ++ c ∷ []) h
]

unfoldable pub validate_hostname : Text → Check
unfolding hostname_loop
validate_hostname h =
    if is_empty h then ok tt else (fail_if (ltb 253 (length h)) long_hostname >> hostname_loop [] h)

unfoldable pub validate_absolute_path : Text → Check
unfolding has_dot_dot_segment
validate_absolute_path p = do
  fail_if (is_empty p) empty_path
  fail_if (ltb 1024 (length p)) long_path
  fail_if (not (head_or 0 p == b'/')) relative_path
  fail_if (has_dot_dot_segment p) dot_dot_path
  fail_if (any is_shell_meta p) meta_path

-- `ds.find("//") != npos`.
abbrev pub has_double_slash : Text → Bool
has_double_slash [] = false
has_double_slash (c ∷ s) = starts_with (codes "//") (c ∷ s) || has_double_slash s

unfoldable pub validate_zfs_dataset : Text → Check
validate_zfs_dataset ds = do
  fail_if (is_empty ds) empty_dataset
  fail_if (ltb 255 (length ds)) long_dataset
  fail_if (head_or 0 ds == b'/') slash_first
  fail_if (last_or 0 ds == b'/') slash_last
  fail_if (has_double_slash ds) double_slash
  fail_if (not (all (λ c. is_name_byte c || (c == b'/' || c == b':')) ds)) bad_dataset_char

unfoldable pub validate_iface_name : Text → Check
validate_iface_name name = do
  fail_if (is_empty name) empty_iface
  fail_if (ltb 15 (length name)) long_iface
  fail_if (not (all is_name_byte name)) bad_iface_char

-- The loop returns at the first byte that one of its two tests refuses.
unfoldable pub rule_loop : Text → Check
rule_loop [] = ok tt
rule_loop (c ∷ s) = do
  fail_if (c == 10 || c == 13) many_lines
  fail_if (c == b'`' || (c == b'$' || (c == b';' || c == 92))) meta_rule
  rule_loop s

unfoldable pub validate_rule_text : Text → Check
unfolding rule_loop
validate_rule_text text = do
  fail_if (is_empty text) empty_rule
  fail_if (ltb 1024 (length text)) long_rule
  rule_loop text

unfoldable pub validate_anchor_name : Text → Check
validate_anchor_name name = do
  fail_if (is_empty name) empty_anchor
  fail_if (ltb 256 (length name)) long_anchor
  fail_if (not (all (λ c. is_name_byte c || c == b'/') name)) bad_anchor_char

abbrev pub ipfw_actions : List Text
ipfw_actions =
    codes "allow"
    ∷ codes "deny"
    ∷ codes "skipto"
    ∷ codes "nat"
    ∷ codes "fwd"
    ∷ codes "count"
    ∷ codes "check-state"
    ∷ codes "reset"
    ∷ []

unfoldable pub validate_ipfw_action : Text → Check
validate_ipfw_action action = fail_if (not (any (text_eq action) ipfw_actions)) unknown_action
