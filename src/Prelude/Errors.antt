-- ===== src/Prelude/Errors.antt =====
-- Calls that may raise. The constructors of `Error` are the exceptions of the scripts: `raise
-- Exception(..)`, those that Python raises by itself, a failed `assert`, and `abort` of asm.py.
use mathlib.Core.Path.{◌≡◌, refl}
use mathlib.Core.Bool.{Bool, true, false}
use idli_v.Prelude.Tests.{if◌then◌else◌}
use mathlib.Core.Logic.{◌⊎◌, inl, inr}
use mathlib.Core.Option.{Option, none, some}

pub data Error : Type 0 where
  exception type_error key_error index_error value_error struct_error assertion abort : Error

pub data Result {ℓ} (A : Type ℓ) : Type ℓ where
  err : Error → Result A
  ok : A → Result A

module _ {κ ℓ} {X : Type κ} {Y : Type ℓ} where
  infixl 5 ◌>>=◌ ◌>>◌
  abbrev pub ◌>>=◌ : Result X → (X → Result Y) → Result Y
  err x >>= next = err x
  ok x >>= next = next x

  abbrev pub ◌>>◌ : Result X → Result Y → Result Y
  err x >> r = err x
  ok x >> r = r

-- Go on only if the test holds.
abbrev pub guard : Bool → Error → Result (Unit {0})
guard b x = elim b [ false ↦ err x | true ↦ ok tt ]

abbrev pub of_option {ℓ} : {A : Type ℓ} → Error → Option A → Result A
of_option e none = err e
of_option e (some a) = ok a

pub Result-cases {ℓ} :
    {A : Type ℓ} (r : Result A) → ((e : Error) × (r ≡ err e)) ⊎ ((a : A) × (r ≡ ok a))
Result-cases (ok a) = inr (a, refl)
Result-cases (err e) = inl (e, refl)

-- A chain that succeeds has a first part that succeeds.
module _ {κ ℓ} {X : Type κ} {Y : Type ℓ} where
  pub parts :
      (r : Result X) (next : X → Result Y) {y : Y}
      → (r >>= next) ≡ ok y
      → (x : X) × (next x ≡ ok y) × (r ≡ ok x)
  parts (err x) next h = cc
  parts (ok x) next h = (x, h, refl)

  pub then_parts :
      (r : Result X) (rest : Result Y) {y : Y}
      → (r >> rest) ≡ ok y
      → (rest ≡ ok y) × ((x : X) × (r ≡ ok x))
  then_parts (err x) rest h = cc
  then_parts (ok x) rest h = (h, (x, refl))

pub guard-true : (b : Bool) (x : Error) {u : Unit {0}} → guard b x ≡ ok u → b ≡ true
guard-true false x h = cc
guard-true true x h = refl

-- A test before a result.
pub if_parts {ℓ} :
    {A : Type ℓ} (b : Bool) (r : Result A) (e : Error) {a : A}
    → (if b then r else err e) ≡ ok a
    → r ≡ ok a
if_parts true r e h = h
if_parts false r e h = absurd (cc h)
