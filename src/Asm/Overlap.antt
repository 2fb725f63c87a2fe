-- ===== src/Asm/Overlap.antt =====
-- What the first pass of scripts/asm.py does not refuse.
use idli_v.Prelude.{
  ℕ, ◌≡◌, ◌≢◌, refl, ◌∙◌, true, false, [], ◌∷◌, none, some, Text, Dict, find, put, find-put_self,
  find-put_ne, ok,
}
use idli_v.Isa.Mnem.{Mnem}
use idli_v.Isa.Encoding.{Operand}
use idli_v.Isa.Instr.{no_ops, Item, Instruction, size}
use idli_v.Isa.Synonym.{sll, reg_of}
use idli_v.Objdump.{takes_imm}
use idli_v.Asm.{register, InstrTree, synonym, Asm}
use idli_v.Asm.Parse.{is_key, add_item, instr_of, parse_operand}

is_key-false : (addr : ℕ) (d : Dict ℕ) → is_key addr d ≡ false
is_key-false addr [] = refl
is_key-false addr ((prefix, a) ∷ rest) = is_key-false addr rest

-- An item can be added at every address, also at one that another item has: both keep it.
pub add_item-overlap :
    (p q : Text) (item : Item) (addr : ℕ) (s : Asm)
    → q ≢ p
    → find q s.addrs ≡ some addr
    → (s' : Asm) × (add_item p item addr s ≡ ok s')
      × (find p s'.items ≡ some item)
      × (find p s'.addrs ≡ some addr)
      × (find q s'.addrs ≡ some addr)
add_item-overlap p q item addr s ne h = (
  record s { items = put p item s.items; addrs = put p addr s.addrs },
  rw (is_key-false addr s.addrs) refl,
  find-put_self p item s.items,
  find-put_self p addr s.addrs,
  find-put_ne p q addr s.addrs ne ∙ h,
)

-- `sll a, sp`
abbrev pub sll_sp : Text → InstrTree
sll_sp reg = record {
  op = synonym sll;
  pattern = some (Operand.a ∷ Operand.b ∷ []);
  cond = none;
  tokens =
      record { type = register; value = reg }
      ∷ record { type = register; value = b's' ∷ b'p' ∷ [] }
      ∷ [];
}

-- The shift of the stack pointer is taken, for every target register, as an addition whose right
-- side is the mark of an immediate, but without one: it has the size of a single word, though the
-- disassembler takes the word behind it for its immediate.
pub instr_of-sll_sp :
    (reg : Text) (r : ℕ)
    → reg_of reg ≡ some r
    → (i : Instruction) × (instr_of (sll_sp reg) ≡ ok i)
      × (i.mnem ≡ Mnem.add)
      × (i.ops.imm ≡ none)
      × (size i ≡ 1)
      × (takes_imm i.ops.c ≡ true)
unfolding instr_of parse_operand reg_of size
instr_of-sll_sp reg r h = (
  record {
    mnem = Mnem.add;
    ops = record no_ops { a = some r; b = some 15; c = some 15 };
    cond = none;
    cex_mask = none;
  },
  rw h refl,
  refl,
  refl,
  refl,
  refl,
)
