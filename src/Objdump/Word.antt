-- ===== src/Objdump/Word.antt =====
-- The word that `encode` computes, and what the disassembler takes out of it.
use idli_v.Prelude.{
  ℕ, zero, suc, ◌+◌, ◌*◌, ◌≤◌, ◌<◌, ◌^◌, ◌≡◌, refl, ap, ◌∙◌, Bool, true, ◌&&◌, ◌||◌, List, [], ◌∷◌,
  map, arith, ok, bit_and, length, none, some, Option, ◌==◌, all, all-get_elem?, &&-left, &&-right,
  ==→eq,
}
use native.Mathlib.Nat.{pow-suc, one-le-pow, mod-eq_of_lt, mul-div_left, le_trans}
use idli_v.Prelude.Bits.{from_bits, AreBits, from_bits-to_bits, to_bits, bit_length}
use idli_v.Isa.Mnem.{Mnem}
use idli_v.Isa.Encoding.{
  Operand, Cell, pattern, opcode, opcode_mask, operand_mask, count, operand_order,
}
use idli_v.Isa.Instr.{Instruction, Item, encode_word, operand_code, get_zero}
use idli_v.Isa.Instr.Fill.{digit_of}
use idli_v.Isa.Instr.Encode.{Fits, encode_all-Encoded, AreCells}
use idli_v.Isa.Instr.Word.{
  parse_bits-Shape, digits-AreBits, length-digits, bit_and-opcode, bit_and-operand_mask, is_block,
  behind,
}
use idli_v.Objdump.{extract, shift_of, operand_value}

pattern-AreCells : (k : Mnem) → AreCells (pattern k)
unfolding pattern
pattern-AreCells Mnem.add = omega arith
pattern-AreCells _ = omega arith

length-pattern : (k : Mnem) → length (pattern k) ≡ 16
unfolding pattern
length-pattern Mnem.add = refl
length-pattern _ = refl

-- The operand stands in one block of places, and the shift of its mask is what stands behind it.
abbrev is_placed : List Cell → Operand → Bool
is_placed p k = is_block k p && (count k p == 0 || shift_of (operand_mask k p) == behind k p)

pattern_placed : (k : Mnem) → all (is_placed (pattern k)) operand_order ≡ true
unfolding pattern bit_length
pattern_placed Mnem.add = refl
pattern_placed _ = refl

placed : (k : Mnem) (l : Operand) → is_placed (pattern k) l ≡ true
placed k Operand.r = all-get_elem? (is_placed (pattern k)) operand_order 0 (pattern_placed k) refl
placed k Operand.s = all-get_elem? (is_placed (pattern k)) operand_order 1 (pattern_placed k) refl
placed k Operand.a = all-get_elem? (is_placed (pattern k)) operand_order 2 (pattern_placed k) refl
placed k Operand.b = all-get_elem? (is_placed (pattern k)) operand_order 3 (pattern_placed k) refl
placed k Operand.n = all-get_elem? (is_placed (pattern k)) operand_order 4 (pattern_placed k) refl
placed k Operand.c = all-get_elem? (is_placed (pattern k)) operand_order 5 (pattern_placed k) refl
placed k Operand.m = all-get_elem? (is_placed (pattern k)) operand_order 6 (pattern_placed k) refl
placed k Operand.j = all-get_elem? (is_placed (pattern k)) operand_order 7 (pattern_placed k) refl

from_bits-lt : (acc : ℕ) (ds : List ℕ) → AreBits ds → from_bits acc ds < (acc + 1) * 2 ^ length ds
from_bits-lt acc [] h = omega arith
from_bits-lt acc (d ∷ ds) h =
    let top : acc * 2 + d + 1 ≤ (acc + 1) * 2 = omega (arith, h.0) in
    le_trans (from_bits-lt (acc * 2 + d) ds h.1) (rw pow-suc (grind arith))

-- A word with the opcode and the values of an instruction.
pub record Shows (k : Mnem) (code : Operand → Option ℕ) (word : ℕ) : Type 0 where
  pub fits16 : word < 2 ^ 16
  pub fits : bit_and word (opcode_mask k) ≡ opcode k
  pub value : (l : Operand) → operand_value l (pattern k) word ≡ code l

value_shown :
    (l : Operand) (p : List Cell) (word w : ℕ) (v : Option ℕ)
    → count l p ≡ w
    → Fits w v
    → is_placed p l ≡ true
    → bit_and word (operand_mask l p)
      ≡ from_bits 0 (to_bits (count l p) (get_zero v)) * 2 ^ behind l p
    → operand_value l p word ≡ v
value_shown l p word zero none e h at_place shown = rw e refl
value_shown l p word zero (some v) e h at_place shown = absurd h
value_shown l p word (suc w) none e h at_place shown = absurd h
value_shown l p word (suc w) (some v) e h at_place shown =
    let shift : shift_of (operand_mask l p) ≡ behind l p =
      ==→eq (shift_of (operand_mask l p)) (behind l p) (
        ground (
          arith,
          e,
          &&-right (is_block l p) (count l p == 0 || shift_of (operand_mask l p) == behind l p)
              at_place,
        )) in
    let low : from_bits 0 (to_bits (suc w) v) ≡ v =
      from_bits-to_bits 0 (suc w) v ∙ omega (arith, mod-eq_of_lt h) in
    let value : extract l p word ≡ v =
      unfold extract in
      rw (shift, shown, e, low) (mul-div_left v (one-le-pow (behind l p) 2 (omega arith))) in
    ground (arith, e, value)

-- The word that `encode` computes has the opcode and the operands of the instruction.
pub encode_word-Shows :
    (i : Instruction) (followers : List Item) (code : Operand → Option ℕ)
    → ((l : Operand) → operand_code l i.ops followers ≡ ok (code l))
    → ((l : Operand) → Fits (count l (pattern i.mnem)) (code l))
    → (word : ℕ) × (encode_word i followers ≡ ok word) × Shows i.mnem code word
unfolding encode_word
encode_word-Shows i followers code codes fits =
    let p = pattern i.mnem in
    let e = encode_all-Encoded p i.ops followers code (pattern-AreCells i.mnem) codes fits in
    let shown : (l : Operand)
        → bit_and (from_bits 0 (map digit_of e.out)) (operand_mask l p)
          ≡ from_bits 0 (to_bits (count l p) (get_zero (code l))) * 2 ^ behind l p =
      λ l.
        bit_and-operand_mask l p e.out e.shape (&&-left (is_block l p) _ (placed i.mnem l))
        ∙ ap (λ (t : List ℕ). from_bits 0 t * 2 ^ behind l p) (e.digits l) in
    (
      from_bits 0 (map digit_of e.out),
      rw e.runs (parse_bits-Shape 0 p e.out e.shape e.full),
      record {
        fits16 =
            (rw (length-digits p e.out e.shape ∙ length-pattern i.mnem) at
              (from_bits-lt 0 (map digit_of e.out) (digits-AreBits p e.out e.shape)));
        fits = unfold opcode opcode_mask in bit_and-opcode p e.out e.shape;
        value = λ l.
            value_shown l p (from_bits 0 (map digit_of e.out)) (count l p) (code l) refl (fits l)
              (placed i.mnem l) (shown l);
      },
    )
