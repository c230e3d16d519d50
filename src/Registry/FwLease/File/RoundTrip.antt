-- ===== src/Registry/FwLease/File/RoundTrip.antt =====
-- The lease file, written and read back: lib/fw_lease_pure.cpp.
use crate.Base.{
  All, KeysBelow, KeysBelow-mono, KeysBelow-snoc, List, Map, SortedFrom, Text, [], ap, append-nil,
  append_assoc, arith, codes, false, find-above, get_lines-unlines, has, is_digit, map, negsuc, ok,
  pos, print_int, put-end, refl, split_on, split_on-append, split_on-piece, strip_cr-has, suc, ℕ, ℤ,
  ◌++◌, ◌+◌, ◌-◌, ◌==◌, ◌∙◌, ◌∷◌, ◌≡◌, ◌≤◌,
}
use crate.Registry.FwLease.{State, Entry, k_max_slots, slot_used, holds, empty_state}
use crate.Registry.FwLease.Slots.{Distinct, IsValid, SlotFits}
use crate.Registry.FwLease.File.{
  entry_line, parse_fields, parse_line, is_skipped, parse, parse_lines, check_slots, serialize,
  header_line, orig_line,
}
use crate.Registry.FwLease.File.Entries.{
  Within, parse_int-print, print_int-has, has-tab, has-entry_line, parse_line-entry,
}

-- The entries that a file may hold from some point on.
abbrev pub EntriesFrom : ℕ → Map Entry → Type 0
EntriesFrom lo [] = Unit {0}
EntriesFrom lo ((j, e) ∷ m) =
    (lo ≤ j) × (j ≤ 65535) × Within (k_max_slots - 1) e.slot × EntriesFrom (suc j) m

parse_lines-entries :
    (n lo : ℕ) (st : State) (acc rest : Map Entry)
    → 1 ≤ lo
    → KeysBelow lo acc
    → EntriesFrom lo rest
    → parse_lines n (record st { leases = acc }) (map entry_line rest)
      ≡ ok (record st { leases = acc ++ rest })
unfolding parse_lines
parse_lines-entries n lo st acc [] p b f = rw (append-nil acc)
parse_lines-entries n lo st acc ((j, e) ∷ rest) p b (low, high, w, f) =
    let below : KeysBelow j acc = KeysBelow-mono lo j acc low b in
    let one : parse_line n (record st { leases = acc }) (entry_line (j, e))
        ≡ ok (record st { leases = acc ++ (j, e) ∷ [] }) =
      parse_line-entry n j (record st { leases = acc }) e (omega arith) high w
        (find-above j acc below)
      ∙ ap (λ m. ok (record st { leases = m })) (put-end j e acc below) in
    rw one (
      parse_lines-entries (n + 1) (suc j) st (acc ++ (j, e) ∷ []) rest (omega arith)
        (KeysBelow-snoc lo (suc j) j e acc b (omega arith) (omega arith)) f
      ∙ ap (λ m. ok (record st { leases = m })) (append_assoc acc ((j, e) ∷ []) rest))

abbrev Unseen : Map Entry → List ℕ → Type 0
Unseen m seen = All (λ n. slot_used n m ≡ false) seen

Unseen-tail :
    (j : ℕ) (e : Entry) (m : Map Entry) (seen : List ℕ) → Unseen ((j, e) ∷ m) seen → Unseen m seen
unfolding slot_used
Unseen-tail j e m [] u = tt
Unseen-tail j e m (n ∷ seen) u = (ground arith, Unseen-tail j e m seen u.1)

Unseen-has :
    (j n : ℕ) (e : Entry) (m : Map Entry) (seen : List ℕ)
    → Unseen ((j, e) ∷ m) seen
    → e.slot ≡ pos n
    → has n seen ≡ false
unfolding slot_used
Unseen-has j n e m [] u h = refl
Unseen-has j n e m (i ∷ seen) u h =
    let apart : holds i e.slot ≡ false = ground arith in
    let apart' : holds i (pos n) ≡ false = rw h at apart in
    ground (arith, apart', Unseen-has j n e m seen u.1 h)

check_slots-Distinct :
    (seen : List ℕ) (m : Map Entry) → Unseen m seen → Distinct m → check_slots seen m ≡ ok tt
unfolding check_slots
check_slots-Distinct seen [] u d = refl
check_slots-Distinct seen ((j, e) ∷ m) u d =
    by_slot (λ t v. check_slots-Distinct t m v d.1) e.slot refl d.0
  where
    by_slot :
        ((t : List ℕ) → Unseen m t → check_slots t m ≡ ok tt)
        → (t : ℤ) → e.slot ≡ t
        → SlotFits t m
        → check_slots seen ((j, e) ∷ m) ≡ ok tt
    by_slot rest (pos n) h f =
        rw h (rw (Unseen-has j n e m seen u h) (rest (n ∷ seen) (f.1, Unseen-tail j e m seen u)))
    by_slot rest (negsuc n) h f = rw h (rest seen (Unseen-tail j e m seen u))

-- What may be written: a valid registry, jids of a kernel, saved sysctls from -1 to 1.
pub record IsFile (s : State) : Type 0 where
  pub valid : IsValid s
  pub jids : KeysBelow 65536 s.leases
  pub saved4 : Within 1 s.orig4
  pub saved6 : Within 1 s.orig6

slot-Within : (t : ℤ) (m : Map Entry) → SlotFits t m → Within (k_max_slots - 1) t
slot-Within (pos n) m f = omega (arith, f.0)
slot-Within (negsuc n) m f = f

entries_from :
    (lo : ℕ) (m : Map Entry) → SortedFrom lo m → Distinct m → KeysBelow 65536 m → EntriesFrom lo m
entries_from lo [] s d b = tt
entries_from lo ((j, e) ∷ m) s d b =
    (s.0, omega (arith, b.0), slot-Within e.slot m d.0, entries_from (suc j) m s.1 d.1 b.1)

has-orig_line :
    (c : ℕ) (s : State)
    → has c (codes "orig46") ≡ false
    → is_digit c ≡ false
    → (b'-' == c) ≡ false
    → (9 == c) ≡ false
    → has c (orig_line s) ≡ false
unfolding orig_line
has-orig_line c s w h k t = has-tab c (codes "orig4") _ t (ground arith) (
    has-tab c (print_int s.orig4) _ t (print_int-has c s.orig4 h k)
      (has-tab c (codes "orig6") _ t (ground arith) (print_int-has c s.orig6 h k)))

no_newline : (m : Map Entry) → All (λ l. has 10 l ≡ false) (map entry_line m)
no_newline [] = tt
no_newline ((j, e) ∷ m) = (has-entry_line 10 j e refl refl refl, no_newline m)

split-orig_line :
    (s : State)
    → split_on 9 (orig_line s)
      ≡ codes "orig4" ∷ print_int s.orig4 ∷ codes "orig6" ∷ print_int s.orig6 ∷ []
unfolding orig_line
split-orig_line s =
    split_on-append 9 (codes "orig4")
      (print_int s.orig4 ++ 9 ∷ (codes "orig6" ++ 9 ∷ print_int s.orig6)) refl
    ∙ ap (◌∷◌ (codes "orig4")) (
        split_on-append 9 (print_int s.orig4) (codes "orig6" ++ 9 ∷ print_int s.orig6)
          (print_int-has 9 s.orig4 refl refl)
        ∙ ap (◌∷◌ (print_int s.orig4)) (
            split_on-append 9 (codes "orig6") (print_int s.orig6) refl
            ∙ ap (◌∷◌ (codes "orig6"))
                (split_on-piece 9 (print_int s.orig6) (print_int-has 9 s.orig6 refl refl))))

parse_line-orig :
    (n : ℕ) (st s : State)
    → Within 1 s.orig4
    → Within 1 s.orig6
    → parse_line n st (orig_line s) ≡ ok (record st { orig4 = s.orig4; orig6 = s.orig6 })
unfolding parse_line parse_fields
parse_line-orig n st s w4 w6 =
    let plain = strip_cr-has (orig_line s) (has-orig_line 13 s refl refl refl refl) in
    let kept : is_skipped (orig_line s) ≡ false = unfold orig_line in refl in
    rw plain (
      rw kept (
        rw (split-orig_line s) (
          rw (
            parse_int-print 1 s.orig4 w4 (omega arith),
            parse_int-print 1 s.orig6 w6 (omega arith),
          ))))

parse_line-header : (st : State) → parse_line 1 st header_line ≡ ok st
unfolding parse_line
parse_line-header st = refl

parse_lines-cons :
    (n : ℕ) (st st' : State) (l : Text) (ls : List Text)
    → parse_line n st l ≡ ok st'
    → parse_lines n st (l ∷ ls) ≡ parse_lines (n + 1) st' ls
unfolding parse_lines
parse_lines-cons n st st' l ls h = rw h refl

-- A file that `serialize` writes is read back as the state that was written.
pub parse-serialize : (s : State) → IsFile s → parse (serialize s) ≡ ok s
unfolding parse serialize
parse-serialize s f =
    let v = f.valid in
    let lines =
      get_lines-unlines (header_line ∷ orig_line s ∷ map entry_line s.leases)
        (refl, (has-orig_line 10 s refl refl refl refl, no_newline s.leases)) in
    let saved : State = record empty_state { orig4 = s.orig4; orig6 = s.orig6 } in
    let read : parse_lines 1 empty_state (header_line ∷ orig_line s ∷ map entry_line s.leases)
        ≡ ok s =
      parse_lines-cons 1 empty_state empty_state header_line _ (parse_line-header empty_state)
      ∙ parse_lines-cons 2 empty_state saved (orig_line s) _
          (parse_line-orig 2 empty_state s f.saved4 f.saved6)
      ∙ parse_lines-entries 3 1 saved [] s.leases (omega arith) tt
          (entries_from 1 s.leases v.sorted v.distinct f.jids) in
    rw lines (rw read (rw (check_slots-Distinct [] s.leases tt v.distinct)))
