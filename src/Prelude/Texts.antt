-- ===== src/Prelude/Texts.antt =====
-- Texts as lists of character codes, and dictionaries with text keys, in the order in which the
-- keys were first set.
use Prim.Native.Nat.{ℕ}
use mathlib.Core.Path.{◌≡◌, refl, sym, ap₂, ◌∙◌}
use mathlib.Core.Logic.{◌≢◌, inl, inr}
use mathlib.Core.Bool.{Bool, true, false, ◌&&◌}
use mathlib.Core.List.{List, [], ◌∷◌}
use mathlib.Core.Option.{Option, none, some}
use native.Mathlib.Omega.{arith}
use idli_v.Prelude.Tests.{◌==◌, if◌then◌else◌, ==→eq, &&-left, &&-right, Bool-cases}

abbrev pub Text : Type 0
Text = List ℕ

abbrev pub list_eq : Text → Text → Bool
list_eq [] [] = true
list_eq (x ∷ xs) (y ∷ ys) = x == y && list_eq xs ys
list_eq _ _ = false

pub list_eq_refl : (t : Text) → list_eq t t ≡ true
list_eq_refl [] = refl
list_eq_refl (x ∷ xs) = ground (arith, list_eq_refl xs)

pub list_eq→eq : (t u : Text) → list_eq t u ≡ true → t ≡ u
list_eq→eq [] [] h = refl
list_eq→eq [] (y ∷ ys) h = ground arith
list_eq→eq (x ∷ xs) [] h = ground arith
list_eq→eq (x ∷ xs) (y ∷ ys) h =
    ap₂ ◌∷◌ (==→eq x y (&&-left (x == y) (list_eq xs ys) h))
      (list_eq→eq xs ys (&&-right (x == y) (list_eq xs ys) h))

abbrev pub Dict {ℓ} : Type ℓ → Type ℓ
Dict A = List (Text × A)

module _ {ℓ} {A : Type ℓ} where
  abbrev pub find : Text → Dict A → Option A
  find key [] = none
  find key ((k, a) ∷ rest) = if list_eq k key then some a else find key rest

  -- `d[key] = a`
  abbrev pub put : Text → A → Dict A → Dict A
  put key a [] = (key, a) ∷ []
  put key a ((k, b) ∷ rest) = if list_eq k key then (k, a) ∷ rest else (k, b) ∷ put key a rest

  -- `list(d.values())`
  abbrev pub values : Dict A → List A
  values [] = []
  values ((k, a) ∷ rest) = a ∷ values rest

module _ {ℓ} {A : Type ℓ} where
  pub find-put_self : (key : Text) (a : A) (d : Dict A) → find key (put key a d) ≡ some a
  find-put_self key a [] = rw (list_eq_refl key) refl
  find-put_self key a ((k, b) ∷ rest) = elim (Bool-cases (list_eq k key)) [
    | inl e ↦ rw (e, find) (rw e refl)
    | inr e ↦ rw (e, find) (rw e (find-put_self key a rest))
  ]

  pub find-put_ne :
      (key other : Text) (a : A) (d : Dict A)
      → other ≢ key
      → find other (put key a d) ≡ find other d
  find-put_ne key other a [] h = elim (Bool-cases (list_eq key other)) [
    | inl e ↦ absurd (h (sym (list_eq→eq key other e)))
    | inr e ↦ rw e refl
  ]
  find-put_ne key other a ((k, b) ∷ rest) h = elim (Bool-cases (list_eq k key)) [
    | inl e ↦ elim (Bool-cases (list_eq k other)) [
      | inl f ↦ absurd (h (sym (list_eq→eq k other f) ∙ list_eq→eq k key e))
      | inr f ↦ rw (e, find) (rw f refl)
    ]
    | inr e ↦ elim (Bool-cases (list_eq k other)) [
      | inl f ↦ rw (e, find) (rw f refl)
      | inr f ↦ rw (e, find) (rw f (find-put_ne key other a rest h))
    ]
  ]
