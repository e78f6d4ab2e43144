-- ===== src/Prelude/Results.antt =====
-- Rust's `Result`, its `?` as the bind of a `do` block, and the error conversions of `?`.
use mathlib.Core.Path.{◌≡◌, refl}
use mathlib.Core.Logic.{◌⊎◌, inl, inr}
use mathlib.Core.Bool.{Bool, true, false}
use native.Mathlib.Omega.{arith}
use mathlib.Core.Option.{Option, none, some}

pub data Result {ℓ κ} (E : Type κ) (A : Type ℓ) : Type (ℓ ⊔ κ) where
  ok : A → Result E A
  err : E → Result E A

module _ {ℓ κ μ} {E : Type κ} {A : Type ℓ} {B : Type μ} where
  -- `?`: the rest runs on the value, an error leaves.
  infixl 5 ◌>>◌ ◌>>=◌
  abbrev pub ◌>>=◌ : Result E A → (A → Result E B) → Result E B
  err e >>= next = err e
  ok x >>= next = next x

  abbrev pub ◌>>◌ : Result E A → Result E B → Result E B
  r >> rest = r >>= λ _. rest

  -- A chain that succeeds had a first step that succeeded.
  pub >>=-eq-ok :
      {y : B} (r : Result E A) (next : A → Result E B)
      → (r >>= next) ≡ ok y
      → (x : A) × (r ≡ ok x) × (next x ≡ ok y)
  >>=-eq-ok (err e) next same = cc
  >>=-eq-ok (ok x) next same = (x, refl, same)

module _ {ℓ κ μ} {E : Type κ} {F : Type μ} {A : Type ℓ} where
  -- `Result::map_err`, and the `From` conversion that `?` applies to an error.
  abbrev pub map_err : (E → F) → Result E A → Result F A
  map_err f (ok a) = ok a
  map_err f (err e) = err (f e)

module _ {ℓ κ} {E : Type κ} {A : Type ℓ} where
  -- `Option::ok_or`.
  abbrev pub ok_or : E → Option A → Result E A
  ok_or e none = err e
  ok_or e (some a) = ok a

  pub Result-cases : (r : Result E A) → ((a : A) × (r ≡ ok a)) ⊎ ((e : E) × (r ≡ err e))
  Result-cases (ok a) = inl (a, refl)
  Result-cases (err e) = inr (e, refl)

-- `if test { return Err(e) }`, which goes on where the test fails.
abbrev pub bail_if {κ} : {E : Type κ} → Bool → E → Result E (Unit {0})
bail_if true e = err e
bail_if false e = ok tt

module _ {ℓ κ μ} {E : Type κ} {F : Type μ} {A : Type ℓ} where
  pub map_err-eq-ok : (f : E → F) (m : Result E A) {a : A} → map_err f m ≡ ok a → m ≡ ok a
  map_err-eq-ok f (ok a) h = ground arith
  map_err-eq-ok f (err e) h = cc

module _ {ℓ κ} {E : Type κ} {A : Type ℓ} where
  pub ok_or-eq-ok : (e : E) (o : Option A) {a : A} → ok_or e o ≡ ok a → o ≡ some a
  ok_or-eq-ok e none h = cc
  ok_or-eq-ok e (some a) h = ground arith

module _ {ℓ κ} {E : Type κ} {A : Type ℓ} where
  pub ok_injective : {x y : A} → ◌≡◌ {A = Result E A} (ok x) (ok y) → x ≡ y
  ok_injective h = ground arith

pub bail_if-eq-ok {κ} : {E : Type κ} (b : Bool) (e : E) → bail_if b e ≡ ok tt → b ≡ false
bail_if-eq-ok true e h = cc
bail_if-eq-ok false e h = refl
