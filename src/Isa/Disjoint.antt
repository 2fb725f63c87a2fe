-- ===== src/Isa/Disjoint.antt =====
-- The encodings of scripts/isa.py do not overlap: no word fits two of them.
use idli_v.Prelude.{
  ℕ, suc, ◌≡◌, refl, ap, Bool, true, not, ◌||◌, List, [], ◌∷◌, map, bit_and, some, ◌==◌,
  if◌then◌else◌, arith, all, all-get_elem?, get_elem?,
}
use idli_v.Prelude.Bits.{bit_and_meet}
use idli_v.Isa.Mnem.{Mnem, mnems}
use idli_v.Isa.Encoding.{opcode, opcode_mask, check_encodings}

abbrev find_index : ℕ → List ℕ → ℕ
find_index o [] = 0
find_index o (x ∷ xs) = if x == o then 0 else suc (find_index o xs)

-- A mnemonic's place in the dictionary.
index : Mnem → ℕ
unfolding opcode
index k = find_index (opcode k) (map opcode mnems)

mnems-index : (k : Mnem) → get_elem? mnems (index k) ≡ some k
unfolding index
mnems-index Mnem.add = refl
mnems-index _ = refl

pub opcode-injective : (k l : Mnem) → opcode k ≡ opcode l → k ≡ l
unfolding index
opcode-injective k l e = cc (
  mnems-index k,
  mnems-index l,
  ap (λ (o : ℕ). get_elem? mnems (find_index o (map opcode mnems))) e,
)

-- The assertion holds when the module is loaded.
check_encodings_passes : check_encodings ≡ true
unfolding check_encodings
check_encodings_passes = refl

abbrev apart : Mnem → Mnem → Bool
apart k l =
    opcode k == opcode l
    || not (bit_and (opcode k) (opcode_mask l) == bit_and (opcode l) (opcode_mask k))

apart_table : all (λ k. all (apart k) mnems) mnems ≡ true
unfolding opcode opcode_mask
apart_table = refl

apart_all : (k l : Mnem) → apart k l ≡ true
apart_all k l =
    all-get_elem? (apart k) mnems (index l)
      (all-get_elem? (λ k. all (apart k) mnems) mnems (index k) apart_table (mnems-index k))
      (mnems-index l)

-- A word fits one encoding at most.
pub fits_one :
    (x : ℕ) (k l : Mnem)
    → bit_and x (opcode_mask k) ≡ opcode k
    → bit_and x (opcode_mask l) ≡ opcode l
    → k ≡ l
fits_one x k l p q = opcode-injective k l (
    ground (
      arith,
      apart_all k l,
      bit_and_meet x (opcode_mask k) (opcode k) (opcode_mask l) (opcode l) p q,
    ))
