-- ===== src/Privops/CreateJail/Accepted.antt =====
-- Which `create_jail` requests the validator lets through.
use crate.Base.{Text, [], arith, join, length, ltb, ok, refl, ◌>>◌, ◌↔◌, ◌∷◌, ◌≡◌}
use crate.Privops.Fields.{
  validate_jail_name, validate_absolute_path, validate_hostname, validate_rule_text,
  long_parameters,
}
use crate.Privops.Fields.Shapes.{IsJailName, IsSafePath, IsHostname, IsPlain}
use crate.Privops.Fields.Names.{test_iff, then_iff, validate_jail_name_iff, validate_rule_text_iff}
use crate.Privops.Fields.Paths.{validate_absolute_path_iff}
use crate.Privops.Fields.Hosts.{validate_hostname_iff}
use crate.Privops.CreateJail.{
  CreateJailReq, check_tokens, tokens, validate_jail_parameters, validate_create_jail,
}
use crate.Privops.CreateJail.Language.{IsParamList, nothing}
use crate.Privops.CreateJail.Tokens.{params_iff}

validate_jail_parameters_iff :
    (s : Text) → (validate_jail_parameters s ≡ ok tt) ↔ (IsPlain s × IsParamList s)
unfolding validate_jail_parameters check_tokens tokens
validate_jail_parameters_iff [] = ((λ h. ((omega arith, tt), nothing)), (λ h. refl))
validate_jail_parameters_iff (c ∷ s) =
    let (split, join) =
      test_iff (ltb 4096 (length (c ∷ s))) long_parameters
        (validate_rule_text (c ∷ s) >> check_tokens (tokens (c ∷ s))) in
    let (split_line, join_line) =
      then_iff (validate_rule_text (c ∷ s)) (check_tokens (tokens (c ∷ s))) in
    let (line, lined) = validate_rule_text_iff (c ∷ s) in
    let (sound, complete) = params_iff (c ∷ s) in
    (
      (λ h.
          let (_, h₁) = split h in let (text, list) = split_line h₁ in ((line text).1, sound list)),
      (λ h.
          let ((short, plain), list) = h in
          join (ground (arith, short), join_line (lined (λ e. cc, (short, plain)), complete list))),
    )

-- The name, the path, the host name and the parameter list that a jail may be created with.
pub IsLaunchable : CreateJailReq → Type 0
IsLaunchable r =
    IsJailName (r.name)
    × IsSafePath (r.path)
    × IsHostname (r.hostname)
    × IsPlain (r.parameters)
    × IsParamList (r.parameters)

-- The validator accepts a `create_jail` request exactly if its name has 1 to 200 letters, digits, dots,
-- underscores and dashes and is neither `.` nor `..`; its path starts with a slash, has at most 1024
-- bytes, no segment `..` and no shell metacharacter; its host name is empty or has at most 253 bytes, in
-- labels of 1 to 63 letters, digits and dashes with no dash at an end; and its parameters have at most
-- 1024 bytes, none of them a newline, a carriage return, a backquote, `$`, `;` or a backslash, and are
-- `key=value` tokens between blanks, each with one of the fourteen keys and a value of that key.
pub validate_create_jail_iff :
    (r : CreateJailReq) → (validate_create_jail r ≡ ok tt) ↔ IsLaunchable r
unfolding validate_create_jail IsLaunchable
validate_create_jail_iff r =
    let host_then =
      then_iff (validate_hostname (r.hostname)) (validate_jail_parameters (r.parameters)) in
    let path_then =
      then_iff (validate_absolute_path (r.path))
        (validate_hostname (r.hostname) >> validate_jail_parameters (r.parameters)) in
    let name_then = then_iff (validate_jail_name (r.name)) (
      validate_absolute_path (r.path)
      >> (validate_hostname (r.hostname) >> validate_jail_parameters (r.parameters))) in
    let name_iff = validate_jail_name_iff (r.name) in
    let path_iff = validate_absolute_path_iff (r.path) in
    let host_iff = validate_hostname_iff (r.hostname) in
    let list_iff = validate_jail_parameters_iff (r.parameters) in
    (
      (λ h.
          let (name, h₁) = name_then.0 h in
          let (path, h₂) = path_then.0 h₁ in
          let (host, h₃) = host_then.0 h₂ in
          let (plain, list) = list_iff.0 h₃ in
          (name_iff.0 name, path_iff.0 path, host_iff.0 host, plain, list)),
      (λ h.
          let (name, path, host, plain, list) = h in
          name_then.1 (
            name_iff.1 name,
            path_then.1 (path_iff.1 path, host_then.1 (host_iff.1 host, list_iff.1 (plain, list))),
          )),
    )
