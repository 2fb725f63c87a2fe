-- ===== src/Isa/Encoding.antt =====
-- The encoding tables of scripts/isa.py: `ENCODINGS` without its underscores, `OPCODES` and
-- `OPCODE_MASKS`. A character of an encoding is a `Cell`.
use idli_v.Prelude.{
  ℕ, suc, Bool, false, not, List, [], ◌∷◌, map, bit_and, ◌==◌, if◌then◌else◌, keep, all, ◌||◌,
  list_eq,
}
use idli_v.Prelude.Bits.{from_bits}
use idli_v.Isa.Mnem.{Mnem, codes, name, encoding, mnems}

-- The operand letters of the encodings.
pub data Operand : Type 0 where
  r s a b n c m j : Operand

-- A '0' or '1', a '?', or an operand's letter.
pub data Cell : Type 0 where
  bit : ℕ → Cell
  unused : Cell
  place : Operand → Cell

-- `OPERAND_ORDER`, in which the disassembler lists the operands.
abbrev pub operand_order : List Operand
operand_order =
    Operand.r ∷ Operand.s ∷ Operand.a ∷ Operand.b ∷ Operand.n ∷ Operand.c ∷ Operand.m ∷ Operand.j
    ∷ []

abbrev pub letter : Operand → ℕ
letter Operand.r = b'r'
letter Operand.s = b's'
letter Operand.a = b'a'
letter Operand.b = b'b'
letter Operand.n = b'n'
letter Operand.c = b'c'
letter Operand.m = b'm'
letter Operand.j = b'j'

abbrev find_letter : ℕ → List Operand → Cell
find_letter x [] = unused
find_letter x (k ∷ ks) = if x == letter k then place k else find_letter x ks

abbrev cell : ℕ → Cell
cell x = if x == b'0' then bit 0 else if x == b'1' then bit 1 else find_letter x operand_order

-- `x == k` for an operand's letter `k`.
abbrev pub holds : Operand → Cell → Bool
holds k (bit d) = false
holds k unused = false
holds k (place l) = letter l == letter k

unfoldable pub pattern : Mnem → List Cell
unfolding encoding
pattern k = map cell (keep (λ x. not (x == b'_')) (codes (encoding k)))

abbrev pub opcode_digit : Cell → ℕ
opcode_digit (bit d) = d
opcode_digit unused = 0
opcode_digit (place k) = 0

abbrev pub mask_digit : Cell → ℕ
mask_digit (bit d) = 1
mask_digit unused = 0
mask_digit (place k) = 0

abbrev pub opcode_of : List Cell → ℕ
opcode_of p = from_bits 0 (map opcode_digit p)

abbrev pub mask_of : List Cell → ℕ
mask_of p = from_bits 0 (map mask_digit p)

unfoldable pub opcode : Mnem → ℕ
unfolding pattern
opcode k = opcode_of (pattern k)

unfoldable pub opcode_mask : Mnem → ℕ
unfolding pattern
opcode_mask k = mask_of (pattern k)

-- How often `k` stands in an encoding: `bits.count(k)`.
abbrev pub count : Operand → List Cell → ℕ
count k [] = 0
count k (x ∷ xs) = if holds k x then suc (count k xs) else count k xs

-- The assertion of `_check_encodings`, for one pair of mnemonics that are not the same.
abbrev no_collision : Mnem → Mnem → Bool
no_collision k l =
    list_eq (codes (name k)) (codes (name l))
    || not (bit_and (opcode k) (opcode_mask k) == bit_and (opcode l) (opcode_mask k))

unfoldable pub check_encodings : Bool
unfolding opcode opcode_mask name
check_encodings = all (λ k. all (no_collision k) mnems) mnems

-- `int(''.join('1' if x == k else '0' for x in enc_str), 2)`
abbrev pub mask_digits : Operand → List Cell → List ℕ
mask_digits k [] = []
mask_digits k (x ∷ xs) = (if holds k x then 1 else 0) ∷ mask_digits k xs

abbrev pub operand_mask : Operand → List Cell → ℕ
operand_mask k p = from_bits 0 (mask_digits k p)
