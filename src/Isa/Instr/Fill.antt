-- ===== src/Isa/Instr/Fill.antt =====
-- What `insert_bits` does to the cells of an encoding.
use idli_v.Prelude.{
  ℕ, ◌≤◌, ◌≡◌, refl, sym, ap, ◌∙◌, Bool, true, false, List, [], ◌∷◌, inl, inr, arith, ◌==◌,
  if◌then◌else◌, length, Bool-cases,
}
use idli_v.Prelude.Bits.{AreBits}
use idli_v.Isa.Encoding.{Operand, Cell, bit, unused, place, holds, count, letter}
use idli_v.Isa.Instr.{insert_bits}

abbrev pub digit_of : Cell → ℕ
digit_of (bit d) = d
digit_of unused = 0
digit_of (place k) = 0

-- The digits of `cs` where the encoding `p` has the operand `k`.
abbrev pub field : Operand → List Cell → List Cell → List ℕ
field k [] cs = []
field k (x ∷ p) [] = []
field k (x ∷ p) (y ∷ cs) = if holds k x then digit_of y ∷ field k p cs else field k p cs

-- A cell of an encoding, and what may stand in its place while the operands are filled in.
abbrev pub ShapeCell : Cell → Cell → Type 0
ShapeCell (bit e) (bit d) = (d ≡ e) × (d ≤ 1)
ShapeCell unused (bit d) = d ≤ 1
ShapeCell (place k) (bit d) = d ≤ 1
ShapeCell (place k) (place l) = k ≡ l
ShapeCell _ _ = ⊥

abbrev pub Shape : List Cell → List Cell → Type 0
Shape [] [] = Unit {0}
Shape (x ∷ p) (y ∷ cs) = ShapeCell x y × Shape p cs
Shape _ _ = ⊥

abbrev pub same : Operand → Operand → Bool
same k l = letter l == letter k

pub same→eq : (k l : Operand) → same k l ≡ true → k ≡ l
same→eq Operand.r l h = ground arith
same→eq k l h = ground arith

pub same_refl : (k : Operand) → same k k ≡ true
same_refl Operand.r = refl
same_refl _ = refl

pub holds_ne : (k l : Operand) (x : Cell) → same k l ≡ false → holds k x ≡ true → holds l x ≡ false
holds_ne k l (bit d) h e = cc
holds_ne k l unused h e = cc
holds_ne k l (place i) h e = ground (arith, same→eq k i e)

-- A cell of the shape either is the encoding's own, or no operand stands there.
pub ShapeCell-holds :
    (k : Operand) (x y : Cell) → ShapeCell x y → holds k y ≡ true → holds k x ≡ true
ShapeCell-holds k (place l) (place i) h e = rw h e
ShapeCell-holds k (bit d) (bit e) h p = p
ShapeCell-holds k unused (bit e) h p = cc
ShapeCell-holds k (place l) (bit e) h p = cc
ShapeCell-holds k (bit d) unused h p = absurd h
ShapeCell-holds k (bit d) (place i) h p = absurd h
ShapeCell-holds k unused unused h p = absurd h
ShapeCell-holds k unused (place i) h p = absurd h
ShapeCell-holds k (place l) unused h p = absurd h

pub count-le : (k : Operand) (p cs : List Cell) → Shape p cs → count k cs ≤ count k p
count-le k [] [] h = omega arith
count-le k [] (y ∷ cs) h = absurd h
count-le k (x ∷ p) [] h = absurd h
count-le k (x ∷ p) (y ∷ cs) h =
    let rest = count-le k p cs h.1 in
    elim (Bool-cases (holds k y)) [
      | inl e ↦ rw (e, ShapeCell-holds k x y h.0 e) (omega arith)
      | inr e ↦ elim (Bool-cases (holds k x)) [
        | inl f ↦ rw (e, f) (omega arith)
        | inr f ↦ rw (e, f) rest
      ]
    ]

-- Where no place of `k` is filled yet, the cells and the encoding agree on it.
holds_open :
    (k : Operand) (x y : Cell) (p cs : List Cell)
    → ShapeCell x y
    → Shape p cs
    → count k (y ∷ cs) ≡ count k (x ∷ p)
    → (holds k y ≡ holds k x) × (count k cs ≡ count k p)
holds_open k x y p cs g h e =
    let rest = count-le k p cs h in
    elim (Bool-cases (holds k y)) [
      | inl u ↦ let v = ShapeCell-holds k x y g u in (u ∙ sym v, ground (arith, u, v))
      | inr u ↦ elim (Bool-cases (holds k x)) [
        | inl v ↦ absurd (ground (arith, u, v))
        | inr v ↦ (u ∙ sym v, ground (arith, u, v))
      ]
    ]

ShapeCell-bit :
    (x y : Cell) (k : Operand) (d : ℕ)
    → ShapeCell x y
    → holds k y ≡ true
    → d ≤ 1
    → ShapeCell x (bit d)
ShapeCell-bit (place l) y k d g e h = h
ShapeCell-bit unused y k d g e h = h
ShapeCell-bit (bit c) y k d g e h = cc (ShapeCell-holds k (bit c) y g e)

pub insert_bits-Shape :
    (k : Operand) (ds : List ℕ) (p cs : List Cell)
    → Shape p cs
    → AreBits ds
    → Shape p (insert_bits k ds cs)
unfolding insert_bits
insert_bits-Shape k ds [] [] h b = h
insert_bits-Shape k ds [] (y ∷ cs) h b = absurd h
insert_bits-Shape k ds (x ∷ p) [] h b = absurd h
insert_bits-Shape k [] (x ∷ p) (y ∷ cs) h b = (h.0, insert_bits-Shape k [] p cs h.1 b)
insert_bits-Shape k (d ∷ ds) (x ∷ p) (y ∷ cs) h b = elim (Bool-cases (holds k y)) [
  | inl e ↦ rw e (ShapeCell-bit x y k d h.0 e b.0, insert_bits-Shape k ds p cs h.1 b.1)
  | inr e ↦ rw e (h.0, insert_bits-Shape k (d ∷ ds) p cs h.1 b)
]

-- Every place of `k` is filled ...
pub count-insert_bits :
    (k : Operand) (ds : List ℕ) (cs : List Cell)
    → length ds ≡ count k cs
    → count k (insert_bits k ds cs) ≡ 0
unfolding insert_bits
count-insert_bits k ds [] h = refl
count-insert_bits k [] (y ∷ cs) h = elim (Bool-cases (holds k y)) [
  | inl e ↦ absurd (ground (arith, e))
  | inr e ↦ rw e (count-insert_bits k [] cs (ground (arith, e)))
]
count-insert_bits k (d ∷ ds) (y ∷ cs) h = elim (Bool-cases (holds k y)) [
  | inl e ↦ rw e (count-insert_bits k ds cs (ground (arith, e)))
  | inr e ↦ rw (e, e) (count-insert_bits k (d ∷ ds) cs (ground (arith, e)))
]

-- ... by the digits in their order ...
pub field-insert_bits :
    (k : Operand) (ds : List ℕ) (p cs : List Cell)
    → Shape p cs
    → count k cs ≡ count k p
    → length ds ≡ count k cs
    → field k p (insert_bits k ds cs) ≡ ds
unfolding insert_bits
field-insert_bits k [] [] [] h o e = refl
field-insert_bits k (d ∷ ds) [] [] h o e = absurd (omega arith)
field-insert_bits k ds [] (y ∷ cs) h o e = absurd h
field-insert_bits k ds (x ∷ p) [] h o e = absurd h
field-insert_bits k [] (x ∷ p) (y ∷ cs) h o e =
    let f = holds_open k x y p cs h.0 h.1 o in
    elim (Bool-cases (holds k y)) [
      | inl u ↦ absurd (ground (arith, u))
      | inr u ↦ rw (sym f.0 ∙ u) (field-insert_bits k [] p cs h.1 f.1 (ground (arith, u)))
    ]
field-insert_bits k (d ∷ ds) (x ∷ p) (y ∷ cs) h o e =
    let f = holds_open k x y p cs h.0 h.1 o in
    elim (Bool-cases (holds k y)) [
      | inl u ↦
          rw (u, sym f.0 ∙ u)
            (ap (λ (t : List ℕ). d ∷ t) (field-insert_bits k ds p cs h.1 f.1 (ground (arith, u))))
      | inr u ↦ rw (u, sym f.0 ∙ u) (field-insert_bits k (d ∷ ds) p cs h.1 f.1 (ground (arith, u)))
    ]

module _ (k l : Operand) (apart : same k l ≡ false) where
  -- ... and the places of the other operands are left alone.
  pub count-insert_bits_ne :
      (ds : List ℕ) (cs : List Cell) → count l (insert_bits k ds cs) ≡ count l cs
  unfolding insert_bits
  count-insert_bits_ne ds [] = refl
  count-insert_bits_ne [] (y ∷ cs) = ground (arith, count-insert_bits_ne [] cs)
  count-insert_bits_ne (d ∷ ds) (y ∷ cs) = elim (Bool-cases (holds k y)) [
    | inl e ↦ rw (e, holds_ne k l y apart e) (count-insert_bits_ne ds cs)
    | inr e ↦ rw e (ground (arith, count-insert_bits_ne (d ∷ ds) cs))
  ]

  pub field-insert_bits_ne :
      (ds : List ℕ) (p cs : List Cell) → Shape p cs → field l p (insert_bits k ds cs) ≡ field l p cs
  unfolding insert_bits
  field-insert_bits_ne ds [] [] h = refl
  field-insert_bits_ne ds [] (y ∷ cs) h = absurd h
  field-insert_bits_ne ds (x ∷ p) [] h = absurd h
  field-insert_bits_ne [] (x ∷ p) (y ∷ cs) h = ground (arith, field-insert_bits_ne [] p cs h.1)
  field-insert_bits_ne (d ∷ ds) (x ∷ p) (y ∷ cs) h = elim (Bool-cases (holds k y)) [
    | inl e ↦
        rw (e, holds_ne k l x apart (ShapeCell-holds k x y h.0 e))
          (field-insert_bits_ne ds p cs h.1)
    | inr e ↦ rw e (ground (arith, field-insert_bits_ne (d ∷ ds) p cs h.1))
  ]
