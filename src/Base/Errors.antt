-- ===== src/Base/Errors.antt =====
-- Go's `(value, error)`: a value or an error. `message` is `errors.New`, and `refused` is the
-- platform's `fail(status, code, message)`, whose text is left out. `fault` is an error that the
-- database or a library hands over.
use Prim.Native.Nat.{ℕ}
use Prim.Native.String.{String}
use mathlib.Core.Path.{◌≡◌, refl, subst}
use mathlib.Core.Logic.{◌⊎◌, inl, inr}
use mathlib.Core.Bool.{Bool, true, false}

pub data Error : Type 0 where
  message : String → Error
  refused : ℕ → String → Error
  fault : Error

pub data Result {ℓ} (Value : Type ℓ) : Type ℓ where
  err : Error → Result Value
  ok : Value → Result Value

module _ {ℓ κ} {Value : Type ℓ} {Next : Type κ} where
  infixl 5 ◌>>=◌ ◌>>◌
  -- `if err != nil { return err }`
  abbrev pub ◌>>=◌ : Result Value → (Value → Result Next) → Result Next
  err why >>= next = err why
  ok value >>= next = next value

  abbrev pub ◌>>◌ : Result Value → Result Next → Result Next
  first >> next = first >>= λ _. next

  -- A chain that succeeds has a first step that does.
  pub >>=-eq-ok :
      (first : Result Value) (next : Value → Result Next) {last : Next}
      → (first >>= next) ≡ ok last
      → (value : Value) × (first ≡ ok value) × (next value ≡ ok last)
  >>=-eq-ok (err why) next done = cc
  >>=-eq-ok (ok value) next done = (value, refl, done)

-- `if bad { return errors.New(…) }`
abbrev pub reject_if : Bool → Error → Result (Unit {0})
reject_if true e = err e
reject_if false e = ok tt

abbrev pub is_ok {ℓ} : {A : Type ℓ} → Result A → Bool
is_ok (ok a) = true
is_ok (err e) = false

pub reject_if-ok : (b : Bool) (e : Error) {u : Unit {0}} → reject_if b e ≡ ok u → b ≡ false
reject_if-ok true e h = cc
reject_if-ok false e h = refl

-- To split on an answer and keep the equation.
pub Result-cases {ℓ} :
    {Value : Type ℓ} (answer : Result Value)
    → ((value : Value) × (answer ≡ ok value)) ⊎ ((why : Error) × (answer ≡ err why))
Result-cases (ok value) = inl (value, refl)
Result-cases (err why) = inr (why, refl)

module _ {ℓ} {A : Type ℓ} where
  -- What is left of a chain behind a guard, or a check, that did not stop it.
  pub passed_guard :
      (b : Bool) (e : Error) {next : Result A} {v : A}
      → (reject_if b e >> next) ≡ ok v
      → (b ≡ false) × (next ≡ ok v)
  passed_guard true e h = cc
  passed_guard false e h = (refl, h)

  pub passed_check :
      (check : Result (Unit {0})) {next : Result A} {v : A}
      → (check >> next) ≡ ok v
      → (check ≡ ok tt) × (next ≡ ok v)
  passed_check (err why) h = cc
  passed_check (ok tt) h = (refl, h)

  pub ok_inj : {a b : A} → ok a ≡ ok b → a ≡ b
  ok_inj e = cc

  -- What holds of a value that is returned holds of the value that is handed over.
  pub ok_subst {κ} : (P : A → Type κ) (a : A) {b : A} → ok a ≡ ok b → P a → P b
  ok_subst P a e p = subst P (ok_inj e) p
