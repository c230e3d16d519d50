-- ===== src/Privops/UserEnv.antt =====
-- The caller's environment: `Env` of lib/per_user_env_pure.h, the path slice that `composeForUid`
-- gives it, the ZFS prefix of lib/zfs_dataset_pure.cpp, the loginclass of lib/per_user_rctl_pure.cpp
-- and the runtime paths of lib/runtime_paths_pure.cpp. Uids are below 2 ^ 32.
use crate.Base.{
  Bool-cases, Text, [], ap, append-nil, append_assoc, arith, codes, decimal, decimal-snoc,
  decimal-zero, decimal_one, drop_last, false, if◌then◌else◌, inl, inr, is_empty, last_or, ltb,
  lt→ltb, refl, suc, sym, true, zero, ℕ, ◌%◌, ◌*◌, ◌++◌, ◌+◌, ◌/◌, ◌<◌, ◌==◌, ◌∙◌, ◌∷◌, ◌≡◌, ◌≤◌,
}

pub record Env : Type 0 where
  pub uid : ℕ
  pub runtime_root : Text
  pub leases_dir : Text
  pub exports_dir : Text
  pub imports_dir : Text
  pub audit_log : Text
  pub zfs_prefix : Text
  pub path_prefix : Text
  pub path_master_prefix : Text
  pub ipv4_sub_cidr : Text
  pub ipv6_sub_cidr : Text
  pub loginclass : Text
  pub loginclass_subject : Text

-- `while (uid > 0) { out.insert(out.begin(), '0' + uid % 10); uid /= 10; }` with fuel.
uid_loop : ℕ → ℕ → Text → Text
uid_loop zero uid out = out
uid_loop (suc f) uid out = elim (ltb 0 uid) [
  | true ↦ uid_loop f (uid / 10) ((48 + uid % 10) ∷ out)
  | false ↦ out
]

-- `uidStr`; the value falls with each round, so `uid` rounds are enough.
unfoldable pub uid_str : ℕ → Text
unfolding uid_loop
uid_str uid = if uid == 0 then b'0' ∷ [] else uid_loop uid uid []

abbrev pub legacy_root : Text
legacy_root = codes "/var/run/crate"

unfoldable pub per_user_root : ℕ → Text
per_user_root uid = legacy_root ++ b'/' ∷ uid_str uid

unfoldable pub loginclass_name : ℕ → Text
loginclass_name uid = codes "crate-" ++ uid_str uid

-- `if (base.back() == '/') base.pop_back();`.
abbrev pub strip_slash : Text → Text
strip_slash base = if last_or 0 base == b'/' then drop_last base else base

unfoldable pub compose_per_user_prefix : Text → ℕ → Text
compose_per_user_prefix master uid = strip_slash master ++ b'/' ∷ uid_str uid

-- The path prefixes that `composeForUid` fills: the master without its slash, and the slice.
unfoldable pub path_master : Text → Text
path_master master = if is_empty master then [] else strip_slash master

unfoldable pub path_slice : Text → ℕ → Text
path_slice master uid = if is_empty master then [] else strip_slash master ++ b'/' ∷ decimal uid

uid_loop-zero : (f : ℕ) (out : Text) → uid_loop f 0 out ≡ out
unfolding uid_loop
uid_loop-zero zero out = refl
uid_loop-zero (suc f) out = refl

uid_loop-decimal :
    (f uid : ℕ) (out : Text) → 0 < uid → uid ≤ f → uid_loop f uid out ≡ decimal uid ++ out
unfolding uid_loop
uid_loop-decimal zero uid out p h = absurd (omega arith)
uid_loop-decimal (suc f) uid out p h =
    rw (lt→ltb 0 uid p, uid_loop)
      (elim (Bool-cases (ltb uid 10)) [
        | inl small ↦
            let done : uid / 10 ≡ 0 = ground arith in
            let digit : uid % 10 ≡ uid = ground arith in
            rw (done, digit)
              (uid_loop-zero f _ ∙ ap (λ t. t ++ out) (sym (decimal_one uid (ground arith))))
        | inr big ↦
            let split : uid / 10 * 10 + uid % 10 ≡ uid = omega arith in
            uid_loop-decimal f (uid / 10) ((48 + uid % 10) ∷ out) (ground arith) (omega arith)
            ∙ sym (append_assoc (decimal (uid / 10)) ((48 + uid % 10) ∷ []) out)
            ∙ ap (λ t. t ++ out)
                (sym (decimal-snoc (uid / 10) (uid % 10) (ground arith) (omega arith))
                  ∙ ap decimal split)
      ])

-- The hand-written conversion agrees with `std::to_string`.
pub uid_str-decimal : (uid : ℕ) → uid_str uid ≡ decimal uid
unfolding uid_str
uid_str-decimal zero = sym decimal-zero
uid_str-decimal (suc n) =
    let positive : (suc n == 0) ≡ false = ground arith in
    rw positive (
      uid_loop-decimal (suc n) (suc n) [] (omega arith) (omega arith)
      ∙ append-nil (decimal (suc n)))

root_user : uid_str 1001 ≡ codes "1001"
unfolding uid_str
root_user = refl
