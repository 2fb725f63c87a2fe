-- ===== src/Isa/Instr/Word.antt =====
-- The word of a filled encoding: its bits, the opcode that it shows, and its fields.
use idli_v.Prelude.{
  ℕ, suc, ◌+◌, ◌*◌, ◌^◌, ◌≡◌, refl, ap, ap₂, ◌∙◌, Bool, true, List, [], ◌∷◌, map, inl, inr, arith,
  ◌==◌, if◌then◌else◌, length, Bool-cases, ok, bit_and, ==→eq,
}
use native.Mathlib.Nat.{pow-suc}
use idli_v.Prelude.Bits.{AreBits, from_bits, masked, bit_and-from_bits}
use idli_v.Isa.Encoding.{
  Operand, Cell, bit, unused, place, holds, count, opcode_digit, mask_digit, opcode_of, mask_of,
  mask_digits, operand_mask,
}
use idli_v.Isa.Instr.{parse_bits}
use idli_v.Isa.Instr.Fill.{Shape, same_refl, field, digit_of}

-- With every operand filled in, `int(bits, 2)` reads the digits.
pub parse_bits-Shape :
    (acc : ℕ) (p cs : List Cell)
    → Shape p cs
    → ((k : Operand) → count k cs ≡ 0)
    → parse_bits acc cs ≡ ok (from_bits acc (map digit_of cs))
unfolding parse_bits
parse_bits-Shape acc [] [] h full = refl
parse_bits-Shape acc [] (y ∷ cs) h full = absurd h
parse_bits-Shape acc (x ∷ p) [] h full = absurd h
parse_bits-Shape acc (x ∷ p) (bit d ∷ cs) h full = parse_bits-Shape (acc * 2 + d) p cs h.1 full
parse_bits-Shape acc (x ∷ p) (place k ∷ cs) h full = absurd (ground (arith, same_refl k, full k))
parse_bits-Shape acc (bit d ∷ p) (unused ∷ cs) h full = absurd h.0
parse_bits-Shape acc (unused ∷ p) (unused ∷ cs) h full = absurd h.0
parse_bits-Shape acc (place k ∷ p) (unused ∷ cs) h full = absurd h.0

pub digits-AreBits : (p cs : List Cell) → Shape p cs → AreBits (map digit_of cs)
digits-AreBits [] [] h = tt
digits-AreBits [] (y ∷ cs) h = absurd h
digits-AreBits (x ∷ p) [] h = absurd h
digits-AreBits (bit e ∷ p) (bit d ∷ cs) h = (h.0.1, digits-AreBits p cs h.1)
digits-AreBits (unused ∷ p) (bit d ∷ cs) h = (h.0, digits-AreBits p cs h.1)
digits-AreBits (place k ∷ p) (bit d ∷ cs) h = (h.0, digits-AreBits p cs h.1)
digits-AreBits (x ∷ p) (place k ∷ cs) h = (omega arith, digits-AreBits p cs h.1)
digits-AreBits (x ∷ p) (unused ∷ cs) h = (omega arith, digits-AreBits p cs h.1)

pub length-digits : (p cs : List Cell) → Shape p cs → length (map digit_of cs) ≡ length p
length-digits [] [] h = refl
length-digits [] (y ∷ cs) h = absurd h
length-digits (x ∷ p) [] h = absurd h
length-digits (x ∷ p) (y ∷ cs) h = ap suc (length-digits p cs h.1)

mask-AreBits : (p : List Cell) → AreBits (map mask_digit p)
mask-AreBits [] = tt
mask-AreBits (bit d ∷ p) = (omega arith, mask-AreBits p)
mask-AreBits (unused ∷ p) = (omega arith, mask-AreBits p)
mask-AreBits (place k ∷ p) = (omega arith, mask-AreBits p)

length-Shape :
    (f g : Cell → ℕ) (p cs : List Cell) → Shape p cs → length (map f cs) ≡ length (map g p)
length-Shape f g [] [] h = refl
length-Shape f g [] (y ∷ cs) h = absurd h
length-Shape f g (x ∷ p) [] h = absurd h
length-Shape f g (x ∷ p) (y ∷ cs) h = ap suc (length-Shape f g p cs h.1)

-- Under the mask of the encoding, what shows is the opcode.
masked-opcode :
    (p cs : List Cell)
    → Shape p cs
    → masked (map digit_of cs) (map mask_digit p) ≡ map opcode_digit p
masked-opcode [] [] h = refl
masked-opcode [] (y ∷ cs) h = absurd h
masked-opcode (x ∷ p) [] h = absurd h
masked-opcode (bit e ∷ p) (bit d ∷ cs) h = ap₂ ◌∷◌ h.0.0 (masked-opcode p cs h.1)
masked-opcode (bit e ∷ p) (place k ∷ cs) h = absurd h.0
masked-opcode (bit e ∷ p) (unused ∷ cs) h = absurd h.0
masked-opcode (unused ∷ p) (y ∷ cs) h = ap (λ (t : List ℕ). 0 ∷ t) (masked-opcode p cs h.1)
masked-opcode (place k ∷ p) (y ∷ cs) h = ap (λ (t : List ℕ). 0 ∷ t) (masked-opcode p cs h.1)

pub bit_and-opcode :
    (p cs : List Cell)
    → Shape p cs
    → bit_and (from_bits 0 (map digit_of cs)) (mask_of p) ≡ opcode_of p
bit_and-opcode p cs h =
    bit_and-from_bits 0 0 (map digit_of cs) (map mask_digit p) (digits-AreBits p cs h)
      (mask-AreBits p) (length-Shape digit_of mask_digit p cs h)
    ∙ ap (from_bits 0) (masked-opcode p cs h)

-- The places of an operand stand together: what is left after the first ones, and after them all.
abbrev runs : Operand → List Cell → Bool
runs k [] = true
runs k (x ∷ p) = if holds k x then runs k p else count k p == 0

abbrev trail : Operand → List Cell → ℕ
trail k [] = 0
trail k (x ∷ p) = if holds k x then trail k p else suc (length p)

abbrev pub is_block : Operand → List Cell → Bool
is_block k [] = true
is_block k (x ∷ p) = if holds k x then runs k p else is_block k p

-- The places behind those of the operand.
abbrev pub behind : Operand → List Cell → ℕ
behind k [] = 0
behind k (x ∷ p) = if holds k x then trail k p else behind k p

module _ (k : Operand) where
  mask_digits-AreBits : (p : List Cell) → AreBits (mask_digits k p)
  mask_digits-AreBits [] = tt
  mask_digits-AreBits (x ∷ p) = (ground arith, mask_digits-AreBits p)

  length-mask_digits :
      (p cs : List Cell) → Shape p cs → length (map digit_of cs) ≡ length (mask_digits k p)
  length-mask_digits [] [] h = refl
  length-mask_digits [] (y ∷ cs) h = absurd h
  length-mask_digits (x ∷ p) [] h = absurd h
  length-mask_digits (x ∷ p) (y ∷ cs) h = ap suc (length-mask_digits p cs h.1)

  masked_absent :
      (acc : ℕ) (p cs : List Cell)
      → Shape p cs
      → count k p ≡ 0
      → from_bits acc (masked (map digit_of cs) (mask_digits k p)) ≡ acc * 2 ^ length p
  masked_absent acc [] [] h e = omega arith
  masked_absent acc [] (y ∷ cs) h e = absurd h
  masked_absent acc (x ∷ p) [] h e = absurd h
  masked_absent acc (x ∷ p) (y ∷ cs) h e = elim (Bool-cases (holds k x)) [
    | inl u ↦ absurd (ground (arith, u))
    | inr u ↦ rw u (
        masked_absent (acc * 2 + 0) p cs h.1 (ground (arith, u))
        ∙ omega (arith, ap (λ (t : ℕ). acc * t) (pow-suc 2 (length p))))
  ]

  field_absent : (p cs : List Cell) → count k p ≡ 0 → field k p cs ≡ []
  field_absent [] cs e = refl
  field_absent (x ∷ p) [] e = refl
  field_absent (x ∷ p) (y ∷ cs) e = ground (arith, field_absent p cs)

  masked_runs :
      (acc : ℕ) (p cs : List Cell)
      → Shape p cs
      → runs k p ≡ true
      → from_bits acc (masked (map digit_of cs) (mask_digits k p))
        ≡ from_bits acc (field k p cs) * 2 ^ trail k p
  masked_runs acc [] [] h e = omega arith
  masked_runs acc [] (y ∷ cs) h e = absurd h
  masked_runs acc (x ∷ p) [] h e = absurd h
  masked_runs acc (x ∷ p) (y ∷ cs) h e = elim (Bool-cases (holds k x)) [
    | inl u ↦ rw u (masked_runs (acc * 2 + digit_of y) p cs h.1 (rw u at e))
    | inr u ↦
        let none_left : count k p ≡ 0 = ==→eq (count k p) 0 (rw u at e) in
        rw (u, field_absent p cs none_left)
          (masked_absent (acc * 2 + 0) p cs h.1 none_left
            ∙ omega (arith, ap (λ (t : ℕ). acc * t) (pow-suc 2 (length p))))
  ]

  masked_block :
      (p cs : List Cell)
      → Shape p cs
      → is_block k p ≡ true
      → from_bits 0 (masked (map digit_of cs) (mask_digits k p))
        ≡ from_bits 0 (field k p cs) * 2 ^ behind k p
  masked_block [] [] h e = refl
  masked_block [] (y ∷ cs) h e = absurd h
  masked_block (x ∷ p) [] h e = absurd h
  masked_block (x ∷ p) (y ∷ cs) h e = elim (Bool-cases (holds k x)) [
    | inl u ↦ rw u (masked_runs (0 * 2 + digit_of y) p cs h.1 (rw u at e))
    | inr u ↦ rw u (masked_block p cs h.1 (rw u at e))
  ]

  -- Under the mask of an operand, what shows is its digits, shifted to their place.
  pub bit_and-operand_mask :
      (p cs : List Cell)
      → Shape p cs
      → is_block k p ≡ true
      → bit_and (from_bits 0 (map digit_of cs)) (operand_mask k p)
        ≡ from_bits 0 (field k p cs) * 2 ^ behind k p
  bit_and-operand_mask p cs h e =
      bit_and-from_bits 0 0 (map digit_of cs) (mask_digits k p) (digits-AreBits p cs h)
        (mask_digits-AreBits p) (length-mask_digits p cs h)
      ∙ masked_block p cs h e
