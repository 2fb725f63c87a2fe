-- ===== src/Asm/Labels/Nearest.antt =====
-- Which address a local reference of scripts/asm.py finds, and where a branch to it arrives.
use mathlib.Core.List.{reverse, reverse-append, reverse-cons, append_assoc}
use idli_v.Prelude.{ℕ, ◌<◌, ◌≤◌, ◌≡◌, refl, ap, ◌∙◌, arith, List, [], ◌∷◌, ◌++◌, some}
use idli_v.Asm.Labels.{first_above, first_up_to, target, forward, backward}

-- The bound holds for all of a list.
abbrev pub AllUpTo : ℕ → List ℕ → Type 0
AllUpTo pc [] = Unit {0}
AllUpTo pc (a ∷ rest) = (a ≤ pc) × AllUpTo pc rest

abbrev pub AllAbove : ℕ → List ℕ → Type 0
AllAbove pc [] = Unit {0}
AllAbove pc (a ∷ rest) = (pc < a) × AllAbove pc rest

first_above-next :
    (pc a : ℕ) (before after : List ℕ)
    → AllUpTo pc before
    → pc < a
    → first_above pc (before ++ a ∷ after) ≡ some a
first_above-next pc a [] [] h k = refl
first_above-next pc a [] (b ∷ after) h k = ground arith
first_above-next pc a (x ∷ []) after h k = ground (arith, first_above-next pc a [] after tt k)
first_above-next pc a (x ∷ y ∷ before) after h k =
    ground (arith, first_above-next pc a (y ∷ before) after h.1 k)

first_up_to-next :
    (pc a : ℕ) (before after : List ℕ)
    → AllAbove pc before
    → a ≤ pc
    → first_up_to pc (before ++ a ∷ after) ≡ some a
first_up_to-next pc a [] [] h k = refl
first_up_to-next pc a [] (b ∷ after) h k = ground arith
first_up_to-next pc a (x ∷ []) after h k = ground (arith, first_up_to-next pc a [] after tt k)
first_up_to-next pc a (x ∷ y ∷ before) after h k =
    ground (arith, first_up_to-next pc a (y ∷ before) after h.1 k)

AllAbove-append :
    (pc : ℕ) (xs ys : List ℕ) → AllAbove pc xs → AllAbove pc ys → AllAbove pc (xs ++ ys)
AllAbove-append pc [] ys h k = k
AllAbove-append pc (x ∷ xs) ys h k = (h.0, AllAbove-append pc xs ys h.1 k)

AllAbove-reverse : (pc : ℕ) (xs : List ℕ) → AllAbove pc xs → AllAbove pc (reverse xs)
AllAbove-reverse pc [] h = tt
AllAbove-reverse pc (x ∷ xs) h =
    rw (reverse-cons x xs)
      (AllAbove-append pc (reverse xs) (x ∷ []) (AllAbove-reverse pc xs h.1) (h.0, tt))

reverse-middle :
    (before : List ℕ) (a : ℕ) (after : List ℕ)
    → reverse (before ++ a ∷ after) ≡ reverse after ++ a ∷ reverse before
reverse-middle before a after =
    reverse-append before (a ∷ after)
    ∙ (ap (λ (t : List ℕ). t ++ reverse before) (reverse-cons a after)
        ∙ append_assoc (reverse after) (a ∷ []) (reverse before))

-- A forward reference finds the first definition in the order of the source whose address is
-- above the program counter.
pub target-forward :
    (pc a : ℕ) (before after : List ℕ)
    → AllUpTo pc before
    → pc < a
    → target forward pc (before ++ a ∷ after) ≡ some a
unfolding target
target-forward pc a before after h k = first_above-next pc a before after h k

-- A backward reference finds the last definition in the order of the source whose address is not
-- above the program counter.
pub target-backward :
    (pc a : ℕ) (before after : List ℕ)
    → AllAbove pc after
    → a ≤ pc
    → target backward pc (before ++ a ∷ after) ≡ some a
unfolding target
target-backward pc a before after h k =
    rw (reverse-middle before a after)
      (first_up_to-next pc a (reverse after) (reverse before) (AllAbove-reverse pc after h) k)

first_above-none :
    (pc a : ℕ) (before : List ℕ) → AllUpTo pc before → first_above pc (before ++ a ∷ []) ≡ some a
first_above-none pc a [] h = refl
first_above-none pc a (x ∷ []) h = ground arith
first_above-none pc a (x ∷ y ∷ before) h = ground (arith, first_above-none pc a (y ∷ before) h.1)

-- A forward reference behind all definitions of its label is not refused: it finds the last one,
-- which lies behind it.
pub target-missing :
    (pc a : ℕ) (rest : List ℕ)
    → AllUpTo pc rest
    → a ≤ pc
    → target forward pc (rest ++ a ∷ []) ≡ some a
unfolding target
target-missing pc a rest h k = first_above-none pc a rest h
