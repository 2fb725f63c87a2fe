-- ===== src/Tgen/Target.antt =====
-- The addresses of the instructions that scripts/tgen.py makes: where one goes to or what it
-- touches, as `_jmp`, `_ld`, `_st` and `_ldstm` of scripts/sim.py compute it.
use idli_v.Prelude.{
  ℕ, ◌+◌, ◌%◌, ◌^◌, ◌≡◌, Bool, true, false, List, [], Option, none, some, ℤ, pos, negsuc, ◌+ℤ◌,
  low16, Result, ok, err, exception, if◌then◌else◌, ◌>>=◌,
}
use idli_v.Isa.Mnem.{Mnem, starts_with}
use idli_v.Isa.Encoding.{Operand}
use idli_v.Isa.Instr.{Ops, Imm, int, ref}
use idli_v.Tgen.{State, check_space}
use idli_v.Tgen.Pick.{is_redirect, mem_op, is_op, is_relative, num_regs, reg_value, pc_hit}
use idli_v.Tgen.Operands.{Progress, Kept}

abbrev pub given : Option Imm → ℕ
given none = 0
given (some z) = 1

-- What is added to the base of a memory operation before the access.
abbrev pub pre_step : Mnem → ℤ
pre_step k = if starts_with b'+' k then pos 1 else if starts_with b'-' k then negsuc 0 else pos 0

abbrev pub addresses : Mnem → Bool
addresses k = elim (mem_op k) [ none ↦ is_redirect k | some l ↦ true ]

-- The words that are kept free from the target on.
abbrev pub room : Mnem → Option Imm → ℕ → ℕ
room k none n = if is_redirect k then 16 else n
room k (some z) n = 16

module _ (pc : ℕ) (regs : List (Option ℕ)) where
  abbrev pub value_of : Ops → Result ℕ
  value_of o = elim o.imm [
    | none ↦ reg_value regs o.c
    | some (int (pos v)) ↦ ok v
    | some (int (negsuc v)) ↦ err exception
    | some (ref t) ↦ err exception
  ]

  -- The address that an instruction goes to, or the first one that it touches, and how many.
  unfoldable pub reach : Mnem → Ops → Result (ℕ × ℕ)
  unfolding starts_with
  reach k o = elim (mem_op k) [
    | none ↦
        value_of o >>= λ v. ok (((if is_relative k then pc + given o.imm else 0) + v) % 2 ^ 16, 1)
    | some l ↦
        if is_op Operand.c (some l)
        then (reg_value regs o.b >>= λ b. value_of o >>= λ v. ok ((b + v) % 2 ^ 16, 1))
        else (reg_value regs o.b >>= λ b. num_regs k o >>= λ n. ok (low16 (pos b +ℤ pre_step k), n))
  ]

  -- These addresses are free, and none is that of the instruction itself if it has no immediate.
  pub record Reaches (used : List ℕ) (k : Mnem) (o : Ops) : Type 0 where
    pub first : ℕ
    pub words : ℕ
    pub is : reach k o ≡ ok (first, words)
    pub free : check_space used first (room k o.imm words) ≡ true
    pub apart : o.imm ≡ none → pc_hit pc first words ≡ false

  abbrev pub ReachesIf : Bool → List ℕ → Mnem → Ops → Type 0
  ReachesIf true used k o = Reaches used k o
  ReachesIf false used k o = Unit {0}

  -- What the choice of the operands gives.
  pub record Chosen {R : Type 0} (t : State R) (result : Result (Mnem × Ops × State R))
      : Type 0 where
    pub mnem : Mnem
    pub ops : Ops
    pub state : State R
    pub runs : result ≡ ok (mnem, ops, state)
    pub progress : Progress mnem [] ops
    pub kept : Kept t state
    pub reaches : ReachesIf (addresses mnem) t.used_addrs mnem ops
