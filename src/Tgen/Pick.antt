-- ===== src/Tgen/Pick.antt =====
-- The operands of a random instruction: the loop of `rand_instr` of scripts/tgen.py over the
-- operands of a mnemonic, with the program counter and the registers of the simulator.
use idli_v.Prelude.{
  ℕ, zero, suc, ◌+◌, ◌-◌, ◌%◌, ◌^◌, Bool, true, false, not, ◌&&◌, ◌||◌, List, [], ◌∷◌, keep, Option,
  none, some, ℤ, pos, negsuc, ◌+ℤ◌, low16, get_elem?, Result, ok, err, key_error, exception,
  of_option, ◌==◌, if◌then◌else◌, ◌>>=◌,
}
use idli_v.Isa.Mnem.{Mnem, has_char, starts_with}
use idli_v.Isa.Encoding.{Operand, count, pattern, operand_order, letter}
use idli_v.Isa.Instr.{Ops, int, sp, get_op}
use idli_v.Sim.State.{known}
use idli_v.Tgen.{Random, State, check_space, rand_imm}
use idli_v.Tgen.Make.{rand_addr}

-- `mnem in REDIRECTS`
abbrev pub is_redirect : Mnem → Bool
is_redirect Mnem.b = true
is_redirect Mnem.j = true
is_redirect Mnem.bl = true
is_redirect Mnem.jl = true
is_redirect _ = false

-- `MEM_OP`
abbrev pub mem_op : Mnem → Option Operand
mem_op Mnem.st = some Operand.c
mem_op Mnem.stm = some Operand.b
mem_op Mnem.st_inc = some Operand.b
mem_op Mnem.inc_st = some Operand.b
mem_op Mnem.st_dec = some Operand.b
mem_op Mnem.dec_st = some Operand.b
mem_op Mnem.ld = some Operand.c
mem_op Mnem.ldm = some Operand.b
mem_op Mnem.ld_inc = some Operand.b
mem_op Mnem.inc_ld = some Operand.b
mem_op Mnem.ld_dec = some Operand.b
mem_op Mnem.dec_ld = some Operand.b
mem_op _ = none

-- The operands of a mnemonic, in the order of `OPERAND_ORDER`.
unfoldable pub op_names : Mnem → List Operand
unfolding pattern
op_names k = keep (λ l. not (count l (pattern k) == 0)) operand_order

abbrev pub set_op : Operand → ℕ → Ops → Ops
set_op Operand.r v o = record o { r = some v }
set_op Operand.s v o = record o { s = some v }
set_op Operand.a v o = record o { a = some v }
set_op Operand.b v o = record o { b = some v }
set_op Operand.n v o = record o { n = some v }
set_op Operand.c v o = record o { c = some v }
set_op Operand.m v o = record o { m = some v }
set_op Operand.j v o = record o { j = some v }

abbrev pub is_op : Operand → Option Operand → Bool
is_op l none = false
is_op l (some k) = letter k == letter l

-- Whether the operand holds an address: any register of a branch, or the one of `MEM_OP`.
abbrev pub is_addr : Mnem → Operand → Bool
is_addr k l = elim (mem_op k) [ none ↦ is_redirect k | some o ↦ is_op l (some o) ]

-- `mnem in ('ldm', 'stm')` and `mnem in ('b', 'bl')`
abbrev pub is_ldstm : Mnem → Bool
is_ldstm Mnem.ldm = true
is_ldstm Mnem.stm = true
is_ldstm _ = false

abbrev pub is_relative : Mnem → Bool
is_relative Mnem.b = true
is_relative Mnem.bl = true
is_relative _ = false

-- The number of registers from R to S.
abbrev pub num_regs : Mnem → Ops → Result ℕ
num_regs k o =
    if is_ldstm k
    then (of_option key_error o.s >>= λ s.
        of_option key_error o.r >>= λ r. ok ((s + (16 - r % 16)) % 16 + 1))
    else ok 1

-- `any(target + i == pc for i in range(n))`
unfoldable pub pc_hit : ℕ → ℕ → ℕ → Bool
pc_hit pc target zero = false
pc_hit pc target (suc n) = target == pc || pc_hit pc (target + 1) n

-- What a round changes besides the choices: the mnemonic, the operands, `is_imm` and `addr_base`.
pub record Draft : Type 0 where
  pub mnem : Mnem
  pub ops : Ops
  pub is_imm : Bool
  pub addr_base : ℤ

-- `ops` of the LD or ST with an immediate that takes the place of another memory operation.
abbrev pub indexed_ops : Mnem → Ops → Ops
indexed_ops k o =
    if is_ldstm k
    then record o { a = o.r; b = o.s; c = some sp; r = none; s = none }
    else record o { c = some sp }

abbrev pub indexed : Mnem → Mnem
indexed k = if has_char b's' k then (if has_char b't' k then Mnem.st else Mnem.ld) else Mnem.ld

-- `state.sim_.regs[v]`; a register without a value cannot be added to.
abbrev pub reg_value : List (Option ℕ) → Option ℕ → Result ℕ
reg_value regs v = of_option key_error v >>= λ r. known (get_elem? regs r)

module _ (pc : ℕ) (regs : List (Option ℕ)) where
  -- `addr_base`, before the operand is replaced.
  unfoldable pub base_of : Mnem → Ops → Result ℤ
  unfolding starts_with
  base_of k o = elim (mem_op k) [
    | none ↦
        if is_redirect k
        then ok (if is_relative k then pos ((pc + 1) % 2 ^ 16) else pos 0)
        else err exception
    | some l ↦
        if starts_with b'+' k
        then ok (pos 1)
        else if starts_with b'-' k
        then ok (negsuc 0)
        else if is_op Operand.c (some l)
        then (reg_value regs o.b >>= λ v. ok (pos v))
        else ok (pos 0)
  ]

  abbrev force_imm : Operand → Draft → Draft
  force_imm l d = record d { ops = set_op l sp d.ops; is_imm = true }

  -- A register that a branch must not go to is replaced by an immediate.
  unfoldable pub check_target : List ℕ → Operand → Draft → Result Draft
  check_target used l d =
      let next = reg_value regs (get_op l d.ops) >>= λ offset.
      let target = ((if is_relative d.mnem then pc else 0) + offset) % 2 ^ 16 in
      ok (if not (check_space used target 16) || target == pc then force_imm l d else d) in
      if not d.is_imm && is_redirect d.mnem then next else ok d

  to_indexed : Draft → Result Draft
  to_indexed d =
      let o = indexed_ops d.mnem d.ops in
      reg_value regs o.b >>= λ v.
      ok (record { mnem = indexed d.mnem; ops = o; is_imm = true; addr_base = pos v })

  -- A memory operation without an immediate.
  unfoldable pub check_block : List ℕ → Bool → Operand → Draft → Result Draft
  unfolding to_indexed pc_hit has_char
  check_block used addressed l d =
      let next = reg_value regs (get_op l d.ops) >>= λ v. num_regs d.mnem d.ops >>= λ n.
      let target = low16 (pos v +ℤ d.addr_base) in
      if not (check_space used target n) || pc_hit pc target n then to_indexed d else ok d in
      if addressed && is_op Operand.b (mem_op d.mnem) then next else ok d

  -- LD and ST with a register as the offset.
  unfoldable pub check_indexed : List ℕ → Bool → Operand → Draft → Result Draft
  check_indexed used addressed l d =
      let next = reg_value regs d.ops.b >>= λ base. reg_value regs (get_op l d.ops) >>= λ offset.
      let target = (base + offset) % 2 ^ 16 in
      ok (
        if not (check_space used target 1) || target == pc
        then force_imm Operand.c (record d { addr_base = pos base })
        else record d { addr_base = pos base }) in
      if addressed && (is_op Operand.c (mem_op d.mnem) && not d.is_imm) then next else ok d

  module _ {R : Type 0} (random : Random R) (fuel : ℕ) where
    abbrev with_addr : Ops → ℕ × State R → Ops × State R
    with_addr o x = (record o { imm = some (int (pos (x.0))) }, x.1)

    unfoldable pub pick_imm : Bool → Draft → State R → Result (Ops × State R)
    unfolding rand_addr
    pick_imm addressed d t =
        let found = rand_addr random fuel d.addr_base t >>= λ x. ok (with_addr d.ops x) in
        if d.is_imm
        then (if addressed then found else ok (with_addr d.ops (rand_imm random 0 0xffff t)))
        else ok (d.ops, t)

    -- A round for one of 'abcrs'.
    unfoldable pub pick_reg : Operand → Mnem → Ops → State R → Result (Mnem × Ops × State R)
    unfolding base_of check_target check_block check_indexed
    pick_reg l k o t = do
      let x = rand_imm random 0 15 t
      let o' = set_op l (x.0) o
      let addressed = is_addr k l
      base ← if addressed then base_of k o' else ok (pos 0)
      let d : Draft = record {
        mnem = k;
        ops = o';
        is_imm = is_op l (some Operand.c) && (x.0) == sp;
        addr_base = base;
      }
      d1 ← check_target t.used_addrs l d
      d2 ← check_block t.used_addrs addressed l d1
      d3 ← check_indexed t.used_addrs addressed l d2
      y ← pick_imm addressed d3 (x.1)
      ok (d3.mnem, y.0, y.1)

    abbrev pick_number : Operand → ℕ → ℕ → Mnem → Ops → State R → Mnem × Ops × State R
    pick_number l lo hi k o t = let x = rand_imm random lo hi t in (k, set_op l (x.0) o, x.1)

    abbrev pick_count : Mnem → Ops → State R → Mnem × Ops × State R
    pick_count k o t =
        let x = rand_imm random 0 15 t in (k, set_op Operand.j (x.0) o, record x.1 { count = x.0 })

    -- A round of the loop over the operands.
    abbrev pub pick_op : Operand → Mnem → Ops → State R → Result (Mnem × Ops × State R)
    pick_op Operand.m k o t = ok (pick_number Operand.m 1 7 k o t)
    pick_op Operand.j k o t = ok (pick_count k o t)
    pick_op Operand.n k o t = ok (pick_number Operand.n 0 3 k o t)
    pick_op l k o t = pick_reg l k o t

    unfoldable pub pick_ops : List Operand → Mnem → Ops → State R → Result (Mnem × Ops × State R)
    unfolding pick_reg
    pick_ops [] k o t = ok (k, o, t)
    pick_ops (l ∷ ls) k o t = pick_op l k o t >>= λ x. pick_ops ls (x.0) (x.1) (x.2)
