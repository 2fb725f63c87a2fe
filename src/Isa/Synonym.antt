-- ===== src/Isa/Synonym.antt =====
-- `REGS` and `SYNONYMS` of scripts/isa.py.
use idli_v.Prelude.{
  ℕ, String, List, [], ◌∷◌, Option, none, some, Text, list_eq, if◌then◌else◌, Result, ok, err,
  key_error,
}
use idli_v.Isa.Mnem.{Mnem, codes}
use idli_v.Isa.Instr.{Ops, sp, lr, zr}

abbrev regs : List (String × ℕ)
regs =
    ("r0", 0)
    ∷ ("r1", 1)
    ∷ ("r2", 2)
    ∷ ("r3", 3)
    ∷ ("r4", 4)
    ∷ ("r5", 5)
    ∷ ("r6", 6)
    ∷ ("r7", 7)
    ∷ ("r8", 8)
    ∷ ("r9", 9)
    ∷ ("r10", 10)
    ∷ ("r11", 11)
    ∷ ("r12", 12)
    ∷ ("r13", 13)
    ∷ ("r14", 14)
    ∷ ("r15", 15)
    ∷ ("zr", 0)
    ∷ ("lr", 14)
    ∷ ("sp", 15)
    ∷ []

abbrev find_reg : Text → List (String × ℕ) → Option ℕ
find_reg text [] = none
find_reg text ((name, r) ∷ rest) = if list_eq (codes name) text then some r else find_reg text rest

-- `REGS.get(text)`
unfoldable pub reg_of : Text → Option ℕ
reg_of text = find_reg text regs

pub data Synonym : Type 0 where
  mov ret nop push pop sll : Synonym

abbrev pub real : Synonym → Mnem
real mov = Mnem.add
real ret = Mnem.j
real nop = Mnem.add
real push = Mnem.dec_st
real pop = Mnem.ld_inc
real sll = Mnem.add

-- The operands of the real instruction.
abbrev copy_b : Option ℕ → Ops → Result Ops
copy_b none o = err key_error
copy_b (some b) o = ok (record o { c = some b })

abbrev pub substitute : Synonym → Ops → Result Ops
substitute mov o = ok (record o { b = some zr })
substitute ret o = ok (record o { c = some lr })
substitute nop o = ok (record o { a = some zr; b = some zr; c = some zr })
substitute push o = ok (record o { b = some sp })
substitute pop o = ok (record o { b = some sp })
substitute sll o = copy_b o.b o
