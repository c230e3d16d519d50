-- ===== src/Daemon/RateLimit/Fair.antt =====
-- How many requests of a second the limiter lets through.
use crate.Base.{
  ==_iff, Bool, Bool-cases, List, [], ap, arith, if◌then◌else◌, inl, inr, leb, ltb, pos, refl, suc,
  sym, ℕ, ◌&&◌, ◌+◌, ◌-◌, ◌<◌, ◌==◌, ◌∙◌, ◌∷◌, ◌≡◌, ◌≤◌,
}
use crate.Daemon.RateLimit.{Bucket, fresh_bucket, check_limited, check, answers}

-- The seconds of the requests do not fall, from `lo` on.
abbrev pub ClockFrom : ℕ → List ℕ → Type 0
ClockFrom lo [] = Unit {0}
ClockFrom lo (now ∷ later) = (lo ≤ now) × ClockFrom now later

unfoldable pub requests_in : ℕ → List ℕ → ℕ
requests_in t [] = 0
requests_in t (now ∷ later) = (if now == t then 1 else 0) + requests_in t later

unfoldable pub allowed_in : ℕ → List (ℕ × Bool) → ℕ
allowed_in t [] = 0
allowed_in t ((now, yes_no) ∷ later) = (if now == t && yes_no then 1 else 0) + allowed_in t later

abbrev pub least : ℕ → ℕ → ℕ
least a b = if leb a b then a else b

requests_past : (t lo : ℕ) (ts : List ℕ) → t < lo → ClockFrom lo ts → requests_in t ts ≡ 0
unfolding requests_in
requests_past t lo [] h c = refl
requests_past t lo (now ∷ later) h c = ground (arith, requests_past t now later)

-- What a bucket still lets through in a second.
abbrev room : ℕ → Bucket → ℕ → ℕ
room limit b t = if b.second == t then limit - b.counter else limit

answers_lem :
    (n t : ℕ) (b : Bucket) (ts : List ℕ)
    → b.counter ≤ suc n
    → ClockFrom b.second ts
    → allowed_in t (answers (pos (suc n)) b ts) ≡ least (requests_in t ts) (room (suc n) b t)
unfolding answers allowed_in requests_in check check_limited
answers_lem n t b [] h c = ground arith
answers_lem n t b (now ∷ later) h c = elim (Bool-cases (b.second == now)) [
  | inl same ↦ elim (Bool-cases (ltb b.counter (suc n))) [
    | inl some_left ↦
        let ih =
          answers_lem n t (record { counter = b.counter + 1; second = now }) later
            (ground (arith, some_left)) c.1 in
        rw (same, some_left) (ground (arith, ih, same, some_left))
    | inr full ↦
        let ih = answers_lem n t b later h (rw (sym ((==_iff b.second now).0 same)) at c.1) in
        rw (same, full) (ground (arith, ih, same, full))
  ]
  | inr fresh ↦
      let ih = answers_lem n t (record { counter = 1; second = now }) later (omega arith) c.1 in
      rw fresh (ground (arith, ih, fresh, requests_past t now later, c.0))
]

-- Under a limit above 0, and while the clock does not run backwards, the requests let through in each
-- second are as many as came in it, or as many as the limit if more came.
pub answers-least :
    (n t : ℕ) (ts : List ℕ)
    → ClockFrom 0 ts
    → allowed_in t (answers (pos (suc n)) fresh_bucket ts) ≡ least (requests_in t ts) (suc n)
answers-least n t ts c =
    let all_room : room (suc n) fresh_bucket t ≡ suc n = ground arith in
    answers_lem n t fresh_bucket ts (omega arith) c ∙ ap (least (requests_in t ts)) all_room
