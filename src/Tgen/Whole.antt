-- ===== src/Tgen/Whole.antt =====
-- All operands of a random instruction of scripts/tgen.py, for any mnemonic.
pub mod Widths
pub mod Rounds
pub mod Direct
pub mod Moving
pub mod Blocks
use idli_v.Prelude.{
  ℕ, zero, suc, ◌+◌, ◌-◌, ◌%◌, ◌^◌, ◌≤◌, ◌<◌, ◌≡◌, refl, sym, ap, subst, ◌∙◌, arith, Bool, true,
  false, not, ◌&&◌, ◌||◌, List, [], ◌∷◌, ◌++◌, Option, none, some, ℤ, pos, negsuc, ◌+ℤ◌, low16,
  Result, ok, err, inl, inr, Bool-cases, ◌==◌, if◌then◌else◌, get_elem?, ◌>>=◌,
}
use idli_v.Isa.Mnem.{Mnem, has_char}
use idli_v.Isa.Encoding.{Operand, count, pattern}
use idli_v.Isa.Instr.{Ops, Imm, int, ref, no_ops, sp, get_op}
use idli_v.Isa.Instr.Encode.{Fits, elem, AreDistinct}
use idli_v.Isa.Instr.Fill.{same_refl}
use idli_v.Tgen.{Random, State, rand_imm}
use idli_v.Tgen.Pick.{
  is_redirect, mem_op, is_addr, indexed, is_ldstm, num_regs, is_op, is_relative, op_names, pick_op,
  pick_ops, base_of, reg_value,
}
use idli_v.Tgen.Operands.{
  Progress, Progress-next, OpenOr, InRange, Kept, start, width, set_op-Sets, count-width,
  op_names-AreDistinct,
}
use idli_v.Tgen.Operands.Plain.{small_reg, plain-Step, Step}
use idli_v.Tgen.Target.{reach, Chosen, ReachesIf, addresses}
use idli_v.Tgen.Final.{AreKnown, HasRoom, reg_value-known, imm_none}
use idli_v.Tgen.Final.Branch.{branch_last}
use idli_v.Tgen.Final.Indexed.{indexed_last}
use idli_v.Tgen.Final.Block.{block_last}
use idli_v.Tgen.Whole.Widths.{Fits-none, Fits-some, no_mem_op, whole_Progress, open_as, block_as}
use idli_v.Tgen.Whole.Rounds.{plain_mnem}
use idli_v.Tgen.Whole.Direct.{branch, with_index}
use idli_v.Tgen.Whole.Moving.{move}
use idli_v.Tgen.Whole.Blocks.{block_ops}

module _ {R : Type 0} (random : Random R) (fuel pc : ℕ) (regs : List (Option ℕ))
    (in_range : InRange random) (known : AreKnown regs) where
  module _ (t : State R) (h : HasRoom random fuel pc regs in_range known t.used_addrs) where
    -- The operands of any mnemonic are chosen.
    pub pick_ops-Chosen :
        (k : Mnem) → Chosen pc regs t (pick_ops pc regs random fuel (op_names k) k no_ops t)
    pick_ops-Chosen k = elim (Bool-cases (is_redirect k)) [
      | inl e ↦ branch random fuel pc regs in_range known t h k e
      | inr e ↦ elim (Bool-cases (is_op Operand.c (mem_op k))) [
        | inl f ↦ with_index random fuel pc regs in_range known t h k f
        | inr f ↦ elim (Bool-cases (is_ldstm k)) [
          | inl g ↦ block_ops random fuel pc regs in_range known t h k g
          | inr g ↦ elim (Bool-cases (is_op Operand.b (mem_op k))) [
            | inl i ↦ move random fuel pc regs in_range known t h k i g
            | inr i ↦ plain_mnem random fuel pc regs in_range known k t e (no_mem_op k f i)
          ]
        ]
      ]
    ]
