-- ===== src/Stack/Inject/Hosts.antt =====
-- The shell script that `hostsCommand` builds is inert.
use crate.Base.{
  &&_elim, >>=-eq-ok, Bool, Bool-cases, List, Text, [], all, all-append, all_mono, ap, arith, codes,
  fail_if, fail_if-then, false, head_or, if◌then◌else◌, inl, inr, is_empty, length, ltb, not, ok,
  ok_injective, refl, sym, text_eq, true, wrap_err, wrap_err-then, ℕ, ◌&&◌, ◌++◌, ◌==◌, ◌||◌, ◌∙◌,
  ◌∷◌, ◌≡◌,
}
use crate.Net.LeaseLine.{k_jail_name}
use crate.Stack.Inject.{
  is_name_char, is_addr_char, validate_stack_name, validate_stack_ip, build_hosts_entries,
  host_lines, hosts_command, empty_name, too_long, reserved_name, leading_dash, bad_name_char,
  empty_addr, bad_addr_char, bad_container, bad_address,
}

-- Newlines written the way `printf` reads them.
unfoldable pub escape_lines : Text → Text
escape_lines [] = []
escape_lines (c ∷ s) =
    let rest = escape_lines s in if c == 10 then codes "\\n" ++ rest else c ∷ rest

-- No byte that means something to the shell between single quotes or to `printf`.
abbrev pub is_plain : ℕ → Bool
is_plain c = not (c == b'\'') && (not (c == b'%') && (not (c == b'\\') && ltb 31 c))

-- A byte of the hosts file.
abbrev pub is_line_byte : ℕ → Bool
is_line_byte c = c == 10 || is_plain c

-- No quote, no format directive, no control byte.
abbrev pub is_inert : ℕ → Bool
is_inert c = not (c == b'\'') && (not (c == b'%') && ltb 31 c)

all_inert : (s : Text) → all is_line_byte s ≡ true → all is_inert (escape_lines s) ≡ true
unfolding escape_lines
all_inert [] h = refl
all_inert (c ∷ s) h = ground (arith, all_inert s)

escape_lines-plain :
    (s t : Text) → all is_plain s ≡ true → escape_lines (s ++ t) ≡ s ++ escape_lines t
unfolding escape_lines
escape_lines-plain [] t h = refl
escape_lines-plain (c ∷ s) t h =
    let (first, rest) = &&_elim (is_plain c) (all is_plain s) h in
    let other : (c == 10) ≡ false = ground arith in
    rw other (ap (◌∷◌ c) (escape_lines-plain s t rest))

name_char-plain : (c : ℕ) → is_name_char c ≡ true → is_plain c ≡ true
name_char-plain c h = ground arith

addr_char-plain : (c : ℕ) → is_addr_char c ≡ true → is_plain c ≡ true
addr_char-plain c h = ground arith

fail_if-clash : {E : Type 0} (e : E) → fail_if true e ≡ ok tt → ⊥
fail_if-clash e h = cc

all_chars :
    (p q : ℕ → Bool) (s : Text)
    → ((c : ℕ) → p c ≡ true → q c ≡ true)
    → not (all p s) ≡ false
    → all q s ≡ true
all_chars p q s imply h = all_mono p q s imply (ground arith)

validate_stack_name-plain :
    (name : Text) → validate_stack_name name ≡ ok tt → all is_plain name ≡ true
unfolding validate_stack_name
validate_stack_name-plain name h =
    let (_, h1) = fail_if-then (is_empty name) empty_name _ tt h in
    let (_, h2) = fail_if-then (ltb k_jail_name (length name)) too_long _ tt h1 in
    let (_, h3) =
      fail_if-then (text_eq name (codes ".") || text_eq name (codes "..")) reserved_name _ tt h2 in
    let (_, h4) = fail_if-then (head_or 0 name == b'-') leading_dash _ tt h3 in
    elim (Bool-cases (not (all is_name_char name))) [
      | inl e ↦ absurd (fail_if-clash bad_name_char (rw e at h4))
      | inr e ↦ all_chars is_name_char is_plain name name_char-plain e
    ]

line_escaped :
    (ip name rest after : Text)
    → all is_plain ip ≡ true
    → all is_plain name ≡ true
    → rest ≡ escape_lines after
    → ip ++ (32 ∷ (name ++ (codes "\\n" ++ rest)))
      ≡ escape_lines (ip ++ (32 ∷ (name ++ (10 ∷ after))))
unfolding escape_lines
line_escaped ip name rest after p q same =
    ap (λ t. ip ++ (32 ∷ (name ++ (codes "\\n" ++ t)))) same
    ∙ ap (λ t. ip ++ (32 ∷ t)) (sym (escape_lines-plain name (10 ∷ after) q))
    ∙ sym (escape_lines-plain ip (32 ∷ (name ++ (10 ∷ after))) p)

plain-line : (s : Text) → all is_plain s ≡ true → all is_line_byte s ≡ true
plain-line s h = all_mono is_plain is_line_byte s (λ c k. ground arith) h

line_plain :
    (ip name after : Text)
    → all is_plain ip ≡ true
    → all is_plain name ≡ true
    → all is_line_byte after ≡ true
    → all is_line_byte (ip ++ (32 ∷ (name ++ (10 ∷ after)))) ≡ true
line_plain ip name after p q h =
    all-append is_line_byte ip (32 ∷ (name ++ (10 ∷ after))) (plain-line ip p)
      (all-append is_line_byte name (10 ∷ after) (plain-line name q) h)

-- One quoted text for `printf`: the hosts entries with their newlines escaped.
pub record IsInertScript (m : List (Text × Text)) (script : Text) : Type 0 where
  pub body : Text
  pub shape : script ≡ codes "printf '" ++ (body ++ codes "' >> /etc/hosts")
  pub inert : all is_inert body ≡ true
  pub prints : body ≡ escape_lines (codes "\n# crate stack containers\n" ++ build_hosts_entries m)
  pub plain : all is_line_byte (build_hosts_entries m) ≡ true

module _ (inet_pton4 inet_pton6 : Text → Bool) where
  validate_stack_ip-plain :
      (ip : Text) → validate_stack_ip inet_pton4 inet_pton6 ip ≡ ok tt → all is_plain ip ≡ true
  unfolding validate_stack_ip
  validate_stack_ip-plain ip h =
      let (_, h1) = fail_if-then (is_empty ip) empty_addr _ tt h in
      let (e, _) = fail_if-then (not (all is_addr_char ip)) bad_addr_char _ tt h1 in
      all_chars is_addr_char is_plain ip addr_char-plain e

  host_lines_lem :
      (m : List (Text × Text)) (lines : Text)
      → host_lines inet_pton4 inet_pton6 m ≡ ok lines
      → (lines ≡ escape_lines (build_hosts_entries m))
        × (all is_line_byte (build_hosts_entries m) ≡ true)
  unfolding host_lines build_hosts_entries escape_lines
  host_lines_lem [] lines h = (sym (ok_injective h), refl)
  host_lines_lem ((name, ip) ∷ m) lines h =
      let (u, first, h1) =
        >>=-eq-ok (wrap_err (bad_container name) (validate_stack_name name)) _ h in
      let (v, second, h2) =
        >>=-eq-ok (wrap_err (bad_address name) (validate_stack_ip inet_pton4 inet_pton6 ip)) _ h1 in
      let (rest, third, h3) = >>=-eq-ok (host_lines inet_pton4 inet_pton6 m) _ h2 in
      let (same, ps) = host_lines_lem m rest third in
      let plain_name =
        validate_stack_name-plain name
          (wrap_err-then (bad_container name) (validate_stack_name name) tt first) in
      let plain_ip =
        validate_stack_ip-plain ip (
          wrap_err-then (bad_address name) (validate_stack_ip inet_pton4 inet_pton6 ip) tt
            second) in
      (
        sym (ok_injective h3)
            ∙ line_escaped ip name rest (build_hosts_entries m) plain_ip plain_name same,
        line_plain ip name (build_hosts_entries m) plain_ip plain_name ps,
      )

  -- A script that is built for a stack appends exactly its hosts entries: it is one quoted text for
  -- `printf`, without a quote, a format directive or a control byte inside.
  pub hosts_command-IsInertScript :
      (kv : Text × Text) (m : List (Text × Text)) (script : Text)
      → hosts_command inet_pton4 inet_pton6 (kv ∷ m) ≡ ok script
      → IsInertScript (kv ∷ m) script
  unfolding hosts_command escape_lines
  hosts_command-IsInertScript kv m script h =
      let (lines, first, h1) = >>=-eq-ok (host_lines inet_pton4 inet_pton6 (kv ∷ m)) _ h in
      let (same, plain) = host_lines_lem (kv ∷ m) lines first in
      record {
        body = codes "\\n# crate stack containers\\n" ++ lines;
        shape = sym (ok_injective h1);
        inert = ap (all is_inert) same ∙ all_inert (build_hosts_entries (kv ∷ m)) plain;
        prints = ap (λ t. codes "\\n# crate stack containers\\n" ++ t) same;
        plain = plain;
      }
