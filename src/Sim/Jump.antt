-- ===== src/Sim/Jump.antt =====
-- The jumps of scripts/sim.py to an immediate address, and the way back.
use idli_v.Prelude.{
  ℕ, ◌+◌, ◌%◌, ◌^◌, ◌<◌, ◌≡◌, refl, ◌∙◌, arith, true, none, some, ok, set, get_elem?, ◌==◌,
  if◌then◌else◌, low16, ℤ, pos, negsuc, ◌+ℤ◌, length, get_elem?-set_self,
}
use idli_v.Isa.Mnem.{Mnem}
use idli_v.Isa.Instr.{no_ops, int, Instruction, instr, item_size, sp, lr}
use idli_v.Sim.State.{Callback, Sim, ◌>>=◌, ◌>>◌, write_reg}
use idli_v.Sim.Exec.{jmp, value_c}
use idli_v.Sim.Tick.{is_idle, exec, run_item}
use idli_v.Sim.Step.{arrive, arrive-pc, arrive-regs, arrive-cond, run_item-is_idle, value_c-known}

-- `jl label` with the address of the label, and `j lr`.
abbrev pub jump_link : ℤ → Instruction
jump_link z = record {
  mnem = Mnem.jl;
  ops = record no_ops { c = some sp; imm = some (int z) };
  cond = none;
  cex_mask = none;
}

abbrev pub jump_back : Instruction
jump_back = record {
  mnem = Mnem.j;
  ops = record no_ops { c = some lr };
  cond = none;
  cex_mask = none;
}

zero_add : (z : ℤ) → pos 0 +ℤ z ≡ z
zero_add (pos n) = ground arith
zero_add (negsuc n) = ground arith

next_address : (pc : ℕ) → (pc + 1 + 1) % 2 ^ 16 ≡ (pc + 2) % 2 ^ 16
next_address pc = omega arith

module _ {E : Type 0} (cb : Callback E) where
  -- The effect of a link: the register, and its callback.
  abbrev linked : Sim E → Sim E
  linked s =
      let back = (s.pc + 2) % 2 ^ 16 in
      record s { pc = s.pc + 1; regs = set s.regs 14 (some back); env = cb.write_reg 14 back s.env }

  exec-jump_link :
      (z : ℤ) (s : Sim E)
      → exec cb Mnem.jl (jump_link z).ops none (record s { pc = s.pc + 1 })
        ≡ ok (some (low16 z), linked s)
  unfolding exec jmp value_c write_reg
  exec-jump_link z s = rw (zero_add z, next_address s.pc) refl

  exec-jump_back :
      (v : ℕ) (s : Sim E)
      → get_elem? s.regs lr ≡ some (some v)
      → exec cb Mnem.j jump_back.ops none s ≡ ok (some (v % 2 ^ 16), s)
  unfolding exec jmp
  exec-jump_back v s h = rw (value_c-known s lr v none refl h, ◌>>=◌) (ground arith)

  -- JL with an immediate address, in a conditional state that holds nothing back, writes the
  -- address of the next instruction, modulo 2^16, to the link register, and goes to the low 16
  -- bits of its address; but where these are zero it goes on to the next instruction.
  pub run_item-jump_link :
      (z : ℤ) (s : Sim E)
      → is_idle s.cond ≡ true
      → (s' : Sim E) × (run_item cb (instr (jump_link z)) s ≡ ok (tt, s'))
        × (s'.pc ≡ (if low16 z == 0 then s.pc + 2 else low16 z))
        × (s'.regs ≡ set s.regs 14 (some ((s.pc + 2) % 2 ^ 16)))
        × (s'.cond ≡ s.cond)
  unfolding exec item_size
  run_item-jump_link z s h =
      let item = instr (jump_link z) in
      (
        arrive cb item (some (low16 z)) (s.pc + 2) (linked s),
        run_item-is_idle cb item s h (exec-jump_link z s),
        arrive-pc cb item (low16 z) (s.pc + 2) (linked s),
        arrive-regs cb item (low16 z) (s.pc + 2) (linked s),
        arrive-cond cb item (low16 z) (s.pc + 2) (linked s),
      )

  -- A call with JL and the return with J through the link register, neither of them held back by
  -- a condition, end at the instruction behind the call, if that has an address below 2^16; the
  -- registers are those of the call.
  pub call-return :
      (z : ℤ) (s : Sim E)
      → is_idle s.cond ≡ true
      → s.pc + 2 < 2 ^ 16
      → length s.regs ≡ 16
      → (s' : Sim E) × ((run_item cb (instr (jump_link z)) >> run_item cb (instr jump_back)) s
          ≡ ok (tt, s'))
        × (s'.pc ≡ s.pc + 2)
        × (s'.regs ≡ set s.regs 14 (some (s.pc + 2)))
  unfolding exec item_size
  call-return z s h small len =
      let (s1, call, at, regs, cond) = run_item-jump_link z s h in
      let back : (s.pc + 2) % 2 ^ 16 ≡ s.pc + 2 = omega arith in
      let held : get_elem? s1.regs lr ≡ some (some ((s.pc + 2) % 2 ^ 16)) =
        rw regs (get_elem?-set_self s.regs 14 (some ((s.pc + 2) % 2 ^ 16)) (omega arith)) in
      let s2 : Sim E = record s1 { pc = s1.pc + 0 } in
      let target = (s.pc + 2) % 2 ^ 16 % 2 ^ 16 in
      let item = instr jump_back in
      let return =
        run_item-is_idle cb item s1 (rw cond h) (exec-jump_back ((s.pc + 2) % 2 ^ 16) s2 held) in
      (
        arrive cb item (some target) (s1.pc + 1) s2,
        rw (call, ◌>>=◌) return,
        arrive-pc cb item target (s1.pc + 1) s2 ∙ ground arith,
        arrive-regs cb item target (s1.pc + 1) s2 ∙ (regs ∙ rw back refl),
      )
