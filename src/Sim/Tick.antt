-- ===== src/Sim/Tick.antt =====
-- `tick` of scripts/sim.py, with `_fetch`, `_check_run` and the table `funcs`.
use idli_v.Prelude.{
  ℕ, zero, suc, ◌+◌, ◌-◌, ◌/◌, ◌%◌, Bool, true, false, ◌&&◌, ◌||◌, Option, none, some, pos, ◌+ℤ◌,
  ltb_ℤ, ◌==◌, if◌then◌else◌, key_error,
}
use idli_v.Isa.Mnem.{Mnem}
use idli_v.Isa.Instr.{Ops, Item, instr, raw, item_size}
use idli_v.Sim.State.{Callback, op_and, op_or, Sim, M, pure, raise, gets, modify, call, ◌>>=◌, ◌>>◌}
use idli_v.Sim.Exec.{
  is_carry, add_sub, cmp, jmp, utx, urx, inc_dec, st, ld, ldstm, addpc, bitwise, shift, carry,
  andor_p, invert, getp, putp, out, read_in, cex,
}

-- `cond in (0, 1)`
abbrev pub is_idle : ℕ → Bool
is_idle c = c == 0 || c == 1

abbrev pub bool_bit : Bool → ℕ
bool_bit true = 1
bool_bit false = 0

-- Whether an instruction in this conditional state runs.
abbrev pub runs : ℕ → Bool → Bool
runs c p = is_idle c || c % 2 == bool_bit p

-- `mnem in CARRY_VLD`
abbrev pub is_carry_valid : Mnem → Bool
is_carry_valid Mnem.add = true
is_carry_valid Mnem.sub = true
is_carry_valid Mnem.sra = true
is_carry_valid Mnem.srl = true
is_carry_valid _ = false

abbrev pub keeps_carry : Item → Bool
keeps_carry (raw d) = false
keeps_carry (instr i) = is_carry_valid i.mnem

module _ {E : Type 0} where
  -- `_check_run`
  unfoldable pub check_run : M E Bool
  check_run = do
    c ← gets (λ s. s.cond)
    p ← gets (λ s. s.pred)
    (if is_idle c then pure tt else modify (λ s. record s { cond = c / 2 }))
    pure (runs c p)

  -- The state of the counter after an instruction.
  unfoldable pub step_count : Sim E → Sim E
  step_count s =
      let n = if ltb_ℤ s.num_count (pos s.max_count) then s.num_count +ℤ pos 1 else s.num_count in
      record s { num_count = n; count_op = if ltb_ℤ n (pos s.max_count) then s.count_op else none }

  -- `Clear carry if persistence isn't set`, and the tick counter.
  unfoldable pub step_carry : Bool → Sim E → Sim E
  step_carry valid s = record s {
    cin = if is_carry s.count_op && valid then s.cin else 0;
    ticks = s.ticks + 1;
  }

  -- An action that does not redirect.
  abbrev pub straight : M E (Unit {0}) → M E (Option ℕ)
  straight m = m >> pure none

module _ {E : Type 0} (cb : Callback E) where
  -- `self.funcs[mnem](mnem, **ops)`; CEX gets the mask instead of M.
  unfoldable pub exec : Mnem → Ops → Option ℕ → M E (Option ℕ)
  exec Mnem.add o mask = straight (add_sub cb Mnem.add o)
  exec Mnem.sub o mask = straight (add_sub cb Mnem.sub o)
  exec Mnem.and o mask = straight (bitwise cb Mnem.and o)
  exec Mnem.andn o mask = straight (bitwise cb Mnem.andn o)
  exec Mnem.or o mask = straight (bitwise cb Mnem.or o)
  exec Mnem.xor o mask = straight (bitwise cb Mnem.xor o)
  exec Mnem.ld o mask = straight (ld cb Mnem.ld o)
  exec Mnem.st o mask = straight (st cb Mnem.st o)
  exec Mnem.ldm o mask = straight (ldstm cb Mnem.ldm o)
  exec Mnem.stm o mask = straight (ldstm cb Mnem.stm o)
  exec Mnem.ld_inc o mask = straight (ld cb Mnem.ld_inc o)
  exec Mnem.st_inc o mask = straight (st cb Mnem.st_inc o)
  exec Mnem.inc_ld o mask = straight (ld cb Mnem.inc_ld o)
  exec Mnem.inc_st o mask = straight (st cb Mnem.inc_st o)
  exec Mnem.ld_dec o mask = straight (ld cb Mnem.ld_dec o)
  exec Mnem.st_dec o mask = straight (st cb Mnem.st_dec o)
  exec Mnem.dec_ld o mask = straight (ld cb Mnem.dec_ld o)
  exec Mnem.dec_st o mask = straight (st cb Mnem.dec_st o)
  exec Mnem.inc o mask = straight (inc_dec cb Mnem.inc o)
  exec Mnem.dec o mask = straight (inc_dec cb Mnem.dec o)
  exec Mnem.srl o mask = straight (shift cb Mnem.srl o)
  exec Mnem.sra o mask = straight (shift cb Mnem.sra o)
  exec Mnem.ror o mask = straight (shift cb Mnem.ror o)
  exec Mnem.rol o mask = straight (shift cb Mnem.rol o)
  exec Mnem.not o mask = straight (invert cb o)
  exec Mnem.urx o mask = straight (urx cb o)
  exec Mnem.getp o mask = straight (getp cb o)
  exec Mnem.eq o mask = straight (cmp cb Mnem.eq o)
  exec Mnem.ne o mask = straight (cmp cb Mnem.ne o)
  exec Mnem.lt o mask = straight (cmp cb Mnem.lt o)
  exec Mnem.ltu o mask = straight (cmp cb Mnem.ltu o)
  exec Mnem.ge o mask = straight (cmp cb Mnem.ge o)
  exec Mnem.geu o mask = straight (cmp cb Mnem.geu o)
  exec Mnem.any o mask = straight (cmp cb Mnem.any o)
  exec Mnem.inp o mask = straight (read_in cb Mnem.inp o)
  exec Mnem.eqx o mask = straight (cmp cb Mnem.eqx o)
  exec Mnem.nex o mask = straight (cmp cb Mnem.nex o)
  exec Mnem.ltx o mask = straight (cmp cb Mnem.ltx o)
  exec Mnem.ltux o mask = straight (cmp cb Mnem.ltux o)
  exec Mnem.gex o mask = straight (cmp cb Mnem.gex o)
  exec Mnem.geux o mask = straight (cmp cb Mnem.geux o)
  exec Mnem.anyx o mask = straight (cmp cb Mnem.anyx o)
  exec Mnem.inpx o mask = straight (read_in cb Mnem.inpx o)
  exec Mnem.addpc o mask = straight (addpc cb o)
  exec Mnem.b o mask = jmp cb Mnem.b o
  exec Mnem.j o mask = jmp cb Mnem.j o
  exec Mnem.bl o mask = jmp cb Mnem.bl o
  exec Mnem.jl o mask = jmp cb Mnem.jl o
  exec Mnem.in_pin o mask = straight (read_in cb Mnem.in_pin o)
  exec Mnem.out o mask = straight (out cb Mnem.out o)
  exec Mnem.outn o mask = straight (out cb Mnem.outn o)
  exec Mnem.outp o mask = straight (out cb Mnem.outp o)
  exec Mnem.utx o mask = straight (utx cb o)
  exec Mnem.carry o mask = straight (carry cb o)
  exec Mnem.putp o mask = straight (putp cb o)
  exec Mnem.andp o mask = straight (andor_p cb op_and o)
  exec Mnem.orp o mask = straight (andor_p cb op_or o)
  exec Mnem.cex o mask = straight (cex cb mask)

  -- Raw data has no mnemonic, so no function.
  abbrev pub exec_item : Item → M E (Option ℕ)
  exec_item (instr i) = exec i.mnem i.ops i.cex_mask
  exec_item (raw d) = raise key_error

  -- `if redirect`: a target of zero does not count as one.
  abbrev pub set_pc : Option ℕ → ℕ → Sim E → Sim E
  set_pc none next s = record s { pc = next }
  set_pc (some zero) next s = record s { pc = next }
  set_pc (some (suc target)) next s = record s {
    pc = suc target;
    env = cb.redirect (suc target) next s.env;
  }

  -- What `tick` does with the instruction that it was given or has fetched.
  unfoldable pub run_item : Item → M E (Unit {0})
  run_item item = do
    pc ← gets (λ s. s.pc)
    let next = pc + item_size item
    modify (λ s. record s { pc = pc + (item_size item - 1) })
    run ← check_run
    redirect ← (if run then exec_item item else pure none)
    modify (λ s. step_carry (keeps_carry item) (step_count (set_pc redirect next s)))

  -- `tick`; without an instruction it fetches one. (`_fetch` also writes the condition of the
  -- instruction, for the trace.)
  unfoldable pub tick : Option Item → M E (Unit {0})
  tick (some item) s = run_item item s
  tick none s = (call cb (cb.fetch s.pc) >>= run_item) s
