-- ===== src/Stack/Topo/Scheduled.antt =====
-- Counts for the queue of `topoSort`: positions that wait, dependencies not yet started, positions
-- that are listed once.
use crate.Base.{
  Bool, Bool-cases, List, [], all, any-append, ap, append-nil, arith, false, has, if◌then◌else◌,
  inl, inr, length, length-append, not, refl, suc, sym, true, zero, ℕ, ℕ_discrete, ◌&&◌, ◌++◌, ◌+◌,
  ◌<◌, ◌==◌, ◌||◌, ◌∙◌, ◌∷◌, ◌≡◌, ◌≢◌, ◌≤◌, ◌⊎◌,
}
use crate.Stack.Topo.{ready, update}
use crate.Stack.Topo.Degrees.{count, update-at, update-other}

-- The dependencies that are not done.
unfoldable pub missing : List ℕ → List ℕ → ℕ
missing started [] = 0
missing started (d ∷ ds) = let rest = missing started ds in if has d started then rest else suc rest

-- The positions below `n` whose degree is not 0.
unfoldable pub blocked : ℕ → (ℕ → ℕ) → ℕ
blocked zero deg = 0
blocked (suc n) deg = blocked n deg + (if deg n == 0 then 0 else 1)

unfoldable pub distinct : List ℕ → Bool
distinct [] = true
distinct (x ∷ xs) = not (has x xs) && distinct xs

has-snoc : (i x : ℕ) (xs : List ℕ) → has i (xs ++ x ∷ []) ≡ (has i xs || (x == i))
has-snoc i x [] = ground arith
has-snoc i x (y ∷ xs) = ground (arith, has-snoc i x xs)

pub has-append_left : (i : ℕ) (xs ys : List ℕ) → has i xs ≡ true → has i (xs ++ ys) ≡ true
has-append_left i xs ys h = ground (arith, any-append (λ b. b == i) xs ys)

pub has-append_right : (i : ℕ) (xs ys : List ℕ) → has i ys ≡ true → has i (xs ++ ys) ≡ true
has-append_right i xs ys h = ground (arith, any-append (λ b. b == i) xs ys)

pub has-snoc_left : (i x : ℕ) (xs : List ℕ) → has i xs ≡ true → has i (xs ++ x ∷ []) ≡ true
has-snoc_left i x xs h = ground (arith, has-snoc i x xs)

pub has-snoc_self : (x : ℕ) (xs : List ℕ) → has x (xs ++ x ∷ []) ≡ true
has-snoc_self x xs = ground (arith, has-snoc x x xs)

pub has-snoc_other : (i x : ℕ) (xs : List ℕ) → x ≢ i → has i (xs ++ x ∷ []) ≡ true → has i xs ≡ true
has-snoc_other i x xs ne h = ground (arith, has-snoc i x xs)

pub distinct-snoc :
    (x : ℕ) (xs : List ℕ) → has x xs ≡ false → distinct xs ≡ true → distinct (xs ++ x ∷ []) ≡ true
unfolding distinct
distinct-snoc x [] h d = refl
distinct-snoc x (y ∷ xs) h d = ground (arith, distinct-snoc x xs, has-snoc y x xs)

pub distinct-cut : (x : ℕ) (xs ys : List ℕ) → distinct (xs ++ x ∷ ys) ≡ true → has x xs ≡ false
unfolding distinct
distinct-cut x [] ys d = refl
distinct-cut x (y ∷ xs) ys d =
    ground (arith, distinct-cut x xs ys, any-append (λ b. b == y) xs (x ∷ ys))

pub missing-snoc :
    (x : ℕ) (started ds : List ℕ)
    → has x started ≡ false
    → missing (started ++ x ∷ []) ds + count x ds ≡ missing started ds
unfolding missing count
missing-snoc x started [] h = refl
missing-snoc x started (d ∷ ds) h = elim (ℕ_discrete d x) [
  | yes e ↦ ground (arith, missing-snoc x started ds h, has-snoc d x started)
  | no ne ↦ ground (arith, missing-snoc x started ds h, has-snoc d x started)
]

pub missing-nil : (ds : List ℕ) → missing [] ds ≡ length ds
unfolding missing
missing-nil [] = refl
missing-nil (d ∷ ds) = ground (arith, missing-nil ds)

pub missing_none :
    (started ds : List ℕ) → missing started ds ≡ 0 → all (λ d. has d started) ds ≡ true
unfolding missing
missing_none started [] h = refl
missing_none started (d ∷ ds) h = ground (arith, missing_none started ds)

pub none_missing :
    (started ds : List ℕ) → all (λ d. has d started) ds ≡ true → missing started ds ≡ 0
unfolding missing
none_missing started [] h = refl
none_missing started (d ∷ ds) h = ground (arith, none_missing started ds)

pub all_of_count :
    (p : ℕ → Bool) (xs : List ℕ) → ((i : ℕ) → 0 < count i xs → p i ≡ true) → all p xs ≡ true
unfolding count
all_of_count p [] h = refl
all_of_count p (x ∷ xs) h = ground (arith, h x, all_of_count p xs (λ i c. h i (ground arith)))

blocked-same : (n : ℕ) (deg : ℕ → ℕ) (i v : ℕ) → n ≤ i → blocked n (update deg i v) ≡ blocked n deg
unfolding blocked
blocked-same zero deg i v h = refl
blocked-same (suc n) deg i v h =
    ground (arith, blocked-same n deg i v, update-other deg i v n (λ e. absurd (omega arith)))

-- What a change of a degree above 0 does to the number of positions that wait.
pub blocked-update :
    (n : ℕ) (deg : ℕ → ℕ) (i v : ℕ)
    → i < n
    → 0 < deg i
    → blocked n (update deg i v) + (if v == 0 then 1 else 0) ≡ blocked n deg
unfolding blocked
blocked-update zero deg i v h p = absurd (omega arith)
blocked-update (suc n) deg i v h p = elim (ℕ_discrete i n) [
  | yes e ↦ ground (
    arith,
    blocked-same n deg i v (omega arith),
    update-at deg i v,
    ap (update deg i v) e,
    ap deg e,
  )
  | no ne ↦ ground (arith, blocked-update n deg i v (omega arith) p, update-other deg i v n ne)
]

pub blocked-none : (n : ℕ) (deg : ℕ → ℕ) (i : ℕ) → blocked n deg ≡ 0 → i < n → deg i ≡ 0
unfolding blocked
blocked-none zero deg i b h = absurd (omega arith)
blocked-none (suc n) deg i b h = elim (ℕ_discrete i n) [
  | yes e ↦ ground (arith, ap deg e)
  | no ne ↦ ground (arith, blocked-none n deg i)
]

pub none-blocked : (n : ℕ) (deg : ℕ → ℕ) → ((i : ℕ) → i < n → deg i ≡ 0) → blocked n deg ≡ 0
unfolding blocked
none-blocked zero deg h = refl
none-blocked (suc n) deg h =
    ground (arith, h n (omega arith), none-blocked n deg (λ i l. h i (omega arith)))

ready-cases :
    (n : ℕ) (deg : ℕ → ℕ)
    → ((deg n ≡ 0) × (ready (suc n) deg ≡ ready n deg ++ n ∷ []))
      ⊎ ((deg n ≢ 0) × (ready (suc n) deg ≡ ready n deg))
unfolding ready
ready-cases n deg = elim (Bool-cases (deg n == 0)) [
  | inl e ↦ inl (ground arith, rw e)
  | inr e ↦ inr (ground arith, rw e (append-nil (ready n deg)))
]

pub length-ready : (n : ℕ) (deg : ℕ → ℕ) → blocked n deg + length (ready n deg) ≡ n
unfolding blocked ready
length-ready zero deg = refl
length-ready (suc n) deg = elim (ready-cases n deg) [
  | inl (z, e) ↦
      ground (arith, length-ready n deg, length-append (ready n deg) (n ∷ []), ap length e)
  | inr (z, e) ↦ ground (arith, length-ready n deg, ap length e)
]

-- Exactly the positions below `n` of degree 0 are ready at the start.
pub has-ready_sound :
    (n : ℕ) (deg : ℕ → ℕ) (i : ℕ) → has i (ready n deg) ≡ true → (deg i ≡ 0) × (i < n)
unfolding ready
has-ready_sound zero deg i h = cc
has-ready_sound (suc n) deg i h = elim (ready-cases n deg) [
  | inl (z, e) ↦
      ground (arith, has-ready_sound n deg i, has-snoc i n (ready n deg), ap (has i) e, ap deg)
  | inr (z, e) ↦ ground (arith, has-ready_sound n deg i, ap (has i) e)
]

pub has-ready : (n : ℕ) (deg : ℕ → ℕ) (i : ℕ) → i < n → deg i ≡ 0 → has i (ready n deg) ≡ true
unfolding ready
has-ready zero deg i l z = absurd (omega arith)
has-ready (suc n) deg i l z = elim (ready-cases n deg) [
  | inl (w, e) ↦ elim (ℕ_discrete i n) [
    | yes at ↦
        ap (has i) e
        ∙ ap (λ m. has i (ready n deg ++ m ∷ [])) (sym at)
        ∙ has-snoc_self i (ready n deg)
    | no ne ↦ ap (has i) e ∙ has-snoc_left i n (ready n deg) (has-ready n deg i (omega arith) z)
  ]
  | inr (w, e) ↦
      let below : i ≢ n = λ at. w (ap deg (sym at) ∙ z) in
      ap (has i) e ∙ has-ready n deg i (omega arith) z
]

pub distinct-ready : (n : ℕ) (deg : ℕ → ℕ) → distinct (ready n deg) ≡ true
unfolding ready distinct
distinct-ready zero deg = refl
distinct-ready (suc n) deg = elim (ready-cases n deg) [
  | inl (z, e) ↦
      ap distinct e
      ∙ distinct-snoc n (ready n deg) (ground (arith, has-ready_sound n deg n))
          (distinct-ready n deg)
  | inr (z, e) ↦ ap distinct e ∙ distinct-ready n deg
]
