-- ===== src/Base/Results.antt =====
-- What a C++ function hands back that returns an error text, empty on success, and fills an out
-- parameter: the value, or which error it was.
use mathlib.Core.Path.{◌≡◌, refl, ap}
use mathlib.Core.Logic.{◌⊎◌, inl, inr}
use mathlib.Core.Bool.{Bool, true, false}

pub data Result {ℓ} (E A : Type ℓ) : Type ℓ where
  ok : A → Result E A
  err : E → Result E A

infixl 5 ◌>>=◌
abbrev pub ◌>>=◌ {ℓ} : {E A B : Type ℓ} → Result E A → (A → Result E B) → Result E B
err e >>= next = err e
ok v >>= next = next v

infixl 5 ◌>>◌
abbrev pub ◌>>◌ {ℓ} : {E A B : Type ℓ} → Result E A → Result E B → Result E B
first >> second = first >>= λ _. second

-- `if (test) return error;`
abbrev pub fail_if : {E : Type 0} → Bool → E → Result E (Unit {0})
fail_if true e = err e
fail_if false e = ok tt

-- The error of an inner call, wrapped: `if (auto e = f(); !e.empty()) return "…: " + e;`.
abbrev pub wrap_err {ℓ} : {E F A : Type ℓ} → (E → F) → Result E A → Result F A
wrap_err f (ok a) = ok a
wrap_err f (err e) = err (f e)

pub Result-cases {ℓ} :
    {E A : Type ℓ} (r : Result E A) → ((e : E) × (r ≡ err e)) ⊎ ((a : A) × (r ≡ ok a))
Result-cases (err e) = inl (e, refl)
Result-cases (ok a) = inr (a, refl)

pub ok_injective {ℓ} : {E A : Type ℓ} {a b : A} → ◌≡◌ {A = Result E A} (ok a) (ok b) → a ≡ b
ok_injective h = cc

pub err_injective {ℓ} : {E A : Type ℓ} {a b : E} → ◌≡◌ {A = Result E A} (err a) (err b) → a ≡ b
err_injective h = cc

-- If a chain of two calls succeeds, the first did, and the second on what the first returned.
pub >>=-eq-ok {ℓ} :
    {E A B : Type ℓ} (first : Result E A) (next : A → Result E B) {last : B}
    → (first >>= next) ≡ ok last
    → (mid : A) × (first ≡ ok mid) × (next mid ≡ ok last)
>>=-eq-ok (err e) next both = cc
>>=-eq-ok (ok mid) next both = (mid, refl, both)

-- If a chain that starts with a test succeeds, the test was false.
pub fail_if-then :
    {E B : Type 0} (b : Bool) (e : E) (next : Result E B) (v : B)
    → (fail_if b e >> next) ≡ ok v
    → (b ≡ false) × (next ≡ ok v)
fail_if-then true e next v h = cc
fail_if-then false e next v h = (refl, h)

pub wrap_err-then :
    {E F A : Type 0} (f : E → F) (r : Result E A) (a : A) → wrap_err f r ≡ ok a → r ≡ ok a
wrap_err-then f (ok b) a h = ap ok (ok_injective h)
wrap_err-then f (err e) a h = cc
