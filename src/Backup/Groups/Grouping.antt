-- ===== src/Backup/Groups/Grouping.antt =====
-- The map from jails to streams holds, for each jail, its streams in the order of the input.
use crate.Base.{
  &&_elim, Bool, Bool-cases, List, Text, [], all, all-append, all_mono, ap, append-nil,
  append_assoc, ap₂, arith, false, if◌then◌else◌, inl, inr, keep_if, refl, sym, text_before,
  text_eq, text_eq_refl, text_eq→eq, true, ◌&&◌, ◌++◌, ◌∙◌, ◌∷◌, ◌≡◌,
}
use crate.Backup.Prune.{StreamFile}
use crate.Backup.Groups.{ByJail, push_stream, group_from}

pub text_before_differs : (a b : Text) → text_before a b ≡ true → text_eq b a ≡ false
text_before_differs [] [] h = cc
text_before_differs [] (y ∷ b) h = refl
text_before_differs (x ∷ a) [] h = cc
text_before_differs (x ∷ a) (y ∷ b) h = ground (arith, text_before_differs a b)

text_before_trans :
    (a b c : Text) → text_before a b ≡ true → text_before b c ≡ true → text_before a c ≡ true
text_before_trans [] [] c h k = cc
text_before_trans [] (y ∷ b) [] h k = cc
text_before_trans [] (y ∷ b) (z ∷ c) h k = refl
text_before_trans (x ∷ a) [] c h k = cc
text_before_trans (x ∷ a) (y ∷ b) [] h k = cc
text_before_trans (x ∷ a) (y ∷ b) (z ∷ c) h k = ground (arith, text_before_trans a b c)

text_before_total :
    (a b : Text) → text_before a b ≡ false → text_eq b a ≡ false → text_before b a ≡ true
text_before_total [] [] h k = cc
text_before_total [] (y ∷ b) h k = cc
text_before_total (x ∷ a) [] h k = refl
text_before_total (x ∷ a) (y ∷ b) h k = ground (arith, text_before_total a b)

abbrev pub is_of : Text → StreamFile → Bool
is_of j f = text_eq f.jail_name j

abbrev pub keys_after : Text → ByJail → Bool
keys_after k m = all (λ (r : Text × List StreamFile). text_before k r.0) m

-- Each jail has one group, of its own streams.
unfoldable pub is_grouped : ByJail → Bool
is_grouped [] = true
is_grouped ((k, fs) ∷ m) = all (is_of k) fs && (keys_after k m && is_grouped m)

-- The group of a jail.
unfoldable pub of_jail : Text → ByJail → List StreamFile
of_jail j [] = []
of_jail j ((k, fs) ∷ m) = if text_eq k j then fs else of_jail j m

pub of_jail-after :
    (j k : Text) (m : ByJail) → text_before j k ≡ true → keys_after k m ≡ true → of_jail j m ≡ []
unfolding of_jail
of_jail-after j k [] b a = refl
of_jail-after j k ((i, fs) ∷ m) b a =
    let (first, rest) = &&_elim (text_before k i) (keys_after k m) a in
    let other = text_before_differs j i (text_before_trans j k i b first) in
    rw other (of_jail-after j k m b rest)

keys_after-push :
    (k : Text) (f : StreamFile) (m : ByJail)
    → text_before k f.jail_name ≡ true
    → keys_after k m ≡ true
    → keys_after k (push_stream f m) ≡ true
unfolding push_stream
keys_after-push k f [] b a = ground (arith, b)
keys_after-push k f ((i, fs) ∷ m) b a = ground (arith, keys_after-push k f m b, b)

push_stream-is_grouped :
    (f : StreamFile) (m : ByJail) → is_grouped m ≡ true → is_grouped (push_stream f m) ≡ true
unfolding push_stream is_grouped
push_stream-is_grouped f [] g = ground (arith, text_eq_refl f.jail_name)
push_stream-is_grouped f ((k, fs) ∷ m) g =
    let (own, g1) = &&_elim (all (is_of k) fs) (keys_after k m && is_grouped m) g in
    let (after, below) = &&_elim (keys_after k m) (is_grouped m) g1 in
    elim (Bool-cases (text_before f.jail_name k)) [
      | inl b ↦
          let far =
            all_mono (λ (r : Text × List StreamFile). text_before k r.0)
              (λ r. text_before f.jail_name r.0) m (λ r h. text_before_trans f.jail_name k r.0 b h)
              after in
          rw b (ground (arith, text_eq_refl f.jail_name, g, far))
      | inr b ↦ elim (Bool-cases (text_eq k f.jail_name)) [
        | inl e ↦
            let at = text_eq→eq k f.jail_name e in
            let mine : is_of k f ≡ true = ap (text_eq f.jail_name) at ∙ text_eq_refl f.jail_name in
            let both = all-append (is_of k) fs (f ∷ []) own (ground (arith, mine)) in
            rw b (rw e (ground (arith, both)))
        | inr e ↦
            let later = keys_after-push k f m (text_before_total f.jail_name k b e) after in
            rw b (rw e (ground (arith, later, push_stream-is_grouped f m below)))
      ]
    ]

pub of_jail-nil : (j : Text) → of_jail j [] ≡ []
unfolding of_jail
of_jail-nil j = refl

pub of_jail-here :
    (j k : Text) (fs : List StreamFile) (m : ByJail)
    → text_eq k j ≡ true
    → of_jail j ((k, fs) ∷ m) ≡ fs
unfolding of_jail
of_jail-here j k fs m e = rw e refl

pub of_jail-later :
    (j k : Text) (fs : List StreamFile) (m : ByJail)
    → text_eq k j ≡ false
    → of_jail j ((k, fs) ∷ m) ≡ of_jail j m
unfolding of_jail
of_jail-later j k fs m e = rw e refl

keep_if-here : (j : Text) (f : StreamFile) → is_of j f ≡ true → keep_if (is_of j) (f ∷ []) ≡ f ∷ []
keep_if-here j f e = rw e refl

keep_if-other : (j : Text) (f : StreamFile) → is_of j f ≡ false → keep_if (is_of j) (f ∷ []) ≡ []
keep_if-other j f e = rw e refl

-- What stands in the group of the jail before a stream that is not the jail's.
keep_if-skip :
    (j : Text) (f : StreamFile) (gs hs : List StreamFile)
    → is_of j f ≡ false
    → gs ≡ hs
    → gs ≡ hs ++ keep_if (is_of j) (f ∷ [])
keep_if-skip j f gs hs other e =
    e ∙ sym (append-nil hs) ∙ ap (λ t. hs ++ t) (sym (keep_if-other j f other))

push_stream-of_jail :
    (j : Text) (f : StreamFile) (m : ByJail)
    → is_grouped m ≡ true
    → of_jail j (push_stream f m) ≡ of_jail j m ++ keep_if (is_of j) (f ∷ [])
unfolding push_stream is_grouped
push_stream-of_jail j f [] g = elim (Bool-cases (is_of j f)) [
  | inl own ↦
      of_jail-here j f.jail_name (f ∷ []) [] own
      ∙ sym (keep_if-here j f own)
      ∙ ap (λ t. t ++ keep_if (is_of j) (f ∷ [])) (sym (of_jail-nil j))
  | inr other ↦
      of_jail-later j f.jail_name (f ∷ []) [] other
      ∙ keep_if-skip j f (of_jail j []) (of_jail j []) other refl
]
push_stream-of_jail j f ((k, fs) ∷ m) g =
    let (own, g1) = &&_elim (all (is_of k) fs) (keys_after k m && is_grouped m) g in
    let (after, below) = &&_elim (keys_after k m) (is_grouped m) g1 in
    elim (Bool-cases (text_before f.jail_name k)) [
      | inl b ↦ elim (Bool-cases (is_of j f)) [
        | inl mine ↦
            let at = text_eq→eq f.jail_name j mine in
            let first = ap (λ t. text_before t k) (sym at) ∙ b in
            let gone =
              of_jail-later j k fs m (text_before_differs j k first)
              ∙ of_jail-after j k m first after in
            rw b (
              of_jail-here j f.jail_name (f ∷ []) ((k, fs) ∷ m) mine
              ∙ ap₂ (λ u v. u ++ v) (sym gone) (sym (keep_if-here j f mine)))
        | inr other ↦ rw b (
            keep_if-skip j f _ (of_jail j ((k, fs) ∷ m)) other
              (of_jail-later j f.jail_name (f ∷ []) ((k, fs) ∷ m) other))
      ]
      | inr b ↦ elim (Bool-cases (text_eq k f.jail_name)) [
        | inl e ↦
            let at = text_eq→eq k f.jail_name e in
            rw b (
              rw e (elim (Bool-cases (text_eq k j)) [
                | inl here ↦
                    of_jail-here j k (fs ++ f ∷ []) m here
                    ∙ ap₂ (λ u v. u ++ v) (sym (of_jail-here j k fs m here))
                        (sym (keep_if-here j f (ap (λ t. text_eq t j) (sym at) ∙ here)))
                | inr away ↦
                    keep_if-skip j f _ (of_jail j ((k, fs) ∷ m))
                      (ap (λ t. text_eq t j) (sym at) ∙ away)
                      (of_jail-later j k (fs ++ f ∷ []) m away ∙ sym (of_jail-later j k fs m away))
              ]))
        | inr e ↦
            let far = text_before_total f.jail_name k b e in
            rw b (
              rw e (elim (Bool-cases (text_eq k j)) [
                | inl here ↦
                    let at = text_eq→eq k j here in
                    keep_if-skip j f _ (of_jail j ((k, fs) ∷ m))
                      (ap (text_eq f.jail_name) (sym at) ∙ text_before_differs k f.jail_name far)
                      (of_jail-here j k fs (push_stream f m) here
                        ∙ sym (of_jail-here j k fs m here))
                | inr away ↦
                    of_jail-later j k fs (push_stream f m) away
                    ∙ push_stream-of_jail j f m below
                    ∙ ap (λ t. t ++ keep_if (is_of j) (f ∷ [])) (sym (of_jail-later j k fs m away))
              ]))
      ]
    ]

keep_if-cons :
    (j : Text) (f : StreamFile) (fs : List StreamFile)
    → keep_if (is_of j) (f ∷ []) ++ keep_if (is_of j) fs ≡ keep_if (is_of j) (f ∷ fs)
keep_if-cons j f fs = elim (Bool-cases (is_of j f)) [ inl e ↦ rw e refl | inr e ↦ rw e refl ]

group_from-is_grouped :
    (m : ByJail) (fs : List StreamFile) → is_grouped m ≡ true → is_grouped (group_from m fs) ≡ true
unfolding group_from
group_from-is_grouped m [] g = g
group_from-is_grouped m (f ∷ fs) g =
    group_from-is_grouped (push_stream f m) fs (push_stream-is_grouped f m g)

group_from-of_jail :
    (j : Text) (m : ByJail) (fs : List StreamFile)
    → is_grouped m ≡ true
    → of_jail j (group_from m fs) ≡ of_jail j m ++ keep_if (is_of j) fs
unfolding group_from
group_from-of_jail j m [] g = sym (append-nil (of_jail j m))
group_from-of_jail j m (f ∷ fs) g =
    group_from-of_jail j (push_stream f m) fs (push_stream-is_grouped f m g)
    ∙ ap (λ t. t ++ keep_if (is_of j) fs) (push_stream-of_jail j f m g)
    ∙ append_assoc (of_jail j m) (keep_if (is_of j) (f ∷ [])) (keep_if (is_of j) fs)
    ∙ ap (λ t. of_jail j m ++ t) (keep_if-cons j f fs)

-- Grouping the streams of a directory.
pub groups_lem :
    (files : List StreamFile)
    → (is_grouped (group_from [] files) ≡ true)
      × ((j : Text) → of_jail j (group_from [] files) ≡ keep_if (is_of j) files)
unfolding is_grouped of_jail
groups_lem files = (group_from-is_grouped [] files refl, λ j. group_from-of_jail j [] files refl)
