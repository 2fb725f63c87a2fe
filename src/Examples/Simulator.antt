-- ===== src/Examples/Simulator.antt =====
-- The simulator at concrete inputs.
use idli_v.Prelude.{
  List, map, ◌++◌, ℕ, ◌+◌, ◌-◌, ◌%◌, ◌^◌, ◌≡◌, refl, ap, arith, true, false, [], ◌∷◌, none, some,
  ok, err, exception, Result, pos, negsuc, low16, set, min, ltb, ◌==◌, if◌then◌else◌,
}
use idli_v.Isa.Mnem.{Mnem, starts_with, ends_with}
use idli_v.Isa.Instr.{Item, instr, Instruction, no_ops, item_size, cond_t, cond_f}
use idli_v.Isa.Instr.Mask.{mask_value}
use idli_v.Objdump.{
  decode, decode_item, matches, decode_instr, take_imm, decode_ops, extract, take_m,
}
use idli_v.Sim.State.{Callback, Sim, init, op_or, read_reg, write_reg, ◌>>◌}
use idli_v.Sim.Host.{Host, run, load, end_of_test, update_pins, host, exit_code}
use idli_v.Isa.Encoding.{opcode, opcode_mask}
use idli_v.Prelude.Bits.{bit_length}
use idli_v.Sim.Output.{run-output}
use idli_v.Sim.Exec.{ldstm_loop, andor_p, add_sub, jmp, value_c, utx}
use idli_v.Sim.Tick.{step_count, step_carry, check_run, exec, run_item, tick}
use idli_v.Sim.Flow.{decisions, verdicts, decisions-mask_value}
use idli_v.Sim.Flow.Skip.{Passed, ticks-Passed}
use idli_v.Sim.Jump.{jump_link, jump_back, run_item-jump_link, call-return}
use idli_v.Sim.Block.{slots, each, ldstm_loop-slots}
use idli_v.Sim.Window.Open.{ticks-InWindow}
use idli_v.Sim.Add.{add_regs, add_word, HoldsWord, add_word-sum}
use idli_v.Sim.Negative.{imm_ops, word_carry, add_sub-negative}
use idli_v.Sim.Registers.{IsValid}
use idli_v.Sim.Registers.Load.{ReadsWords}
use idli_v.Sim.Registers.Tick.{ticks, ticks-IsValid}

-- Callbacks that keep nothing: every word of the memory is 7, and nothing comes in.
abbrev quiet : Callback (Unit {0})
quiet = record {
  write_reg = λ r v e. e;
  write_pred = λ p e. e;
  write_cond = λ c e. e;
  write_mem = λ a v e. ok e;
  read_mem = λ a e. ok (7, e);
  write_uart = λ v e. e;
  read_uart = λ e. err exception;
  fetch = λ pc e. err exception;
  write_pin = λ n v e. e;
  read_pin = λ n e. err exception;
  redirect = λ pc next e. e;
}

-- A simulator whose registers hold numbers.
abbrev filled : Sim (Unit {0})
filled = record {
  pc = 0x10;
  regs =
      some 0
      ∷ some 0xffff
      ∷ some 1
      ∷ some 0x8001
      ∷ some 5
      ∷ some 0
      ∷ some 0
      ∷ some 0
      ∷ some 0
      ∷ some 0
      ∷ some 0
      ∷ some 0
      ∷ some 0
      ∷ some 0
      ∷ some 0
      ∷ some 0
      ∷ [];
  pred = true;
  cond = 0;
  num_count = pos 0;
  max_count = 0;
  count_op = none;
  cin = 0;
  ticks = 0;
  out_pins = none ∷ none ∷ none ∷ none ∷ [];
  env = tt;
}

-- `add r5, r1, r2`, and a state in which it is skipped.
abbrev sum_item : Item
sum_item = instr (add_regs 5 1 2)

abbrev under_true : Sim (Unit {0})
under_true = record filled { pred = true }

-- `cex` for one follower, and `sum_item` behind it, which the predicate forbids.
abbrev cex_one : Instruction
cex_one = record { mnem = Mnem.cex; ops = no_ops; cond = none; cex_mask = some 2 }

ticks-Passed_example :
    (s' : Sim (Unit {0})) × (ticks quiet (some (instr cex_one) ∷ some sum_item ∷ []) under_true
      ≡ ok (tt, s'))
    × Passed 2 tt under_true s'
unfolding item_size
ticks-Passed_example =
    ticks-Passed quiet cex_one (cond_f ∷ []) (sum_item ∷ []) under_true refl refl refl refl refl

abbrev masked_state : Sim (Unit {0})
masked_state = record filled { cond = mask_value (cond_t ∷ cond_f ∷ []) }

decisions-mask_value_example :
    (s' : Sim (Unit {0})) × (decisions (false ∷ false ∷ true ∷ []) masked_state
      ≡ ok (verdicts (cond_t ∷ cond_f ∷ []) (false ∷ false ∷ true ∷ []), s'))
    × (s'.cond ≡ 1)
decisions-mask_value_example =
    decisions-mask_value (cond_t ∷ cond_f ∷ []) (false ∷ false ∷ true ∷ []) masked_state refl
      (omega arith)

-- A call of address zero.
run_item-jump_link_example :
    (s' : Sim (Unit {0})) × (run_item quiet (instr (jump_link (pos 0))) filled ≡ ok (tt, s'))
    × (s'.pc ≡ (if low16 (pos 0) == 0 then filled.pc + 2 else low16 (pos 0)))
    × (s'.regs ≡ set filled.regs 14 (some ((filled.pc + 2) % 2 ^ 16)))
    × (s'.cond ≡ filled.cond)
run_item-jump_link_example = run_item-jump_link quiet (pos 0) filled refl

call-return_example :
    (s' : Sim (Unit {0})) × ((run_item quiet (instr (jump_link (pos 0x200)))
          >> run_item quiet (instr jump_back))
        filled
      ≡ ok (tt, s'))
    × (s'.pc ≡ filled.pc + 2)
    × (s'.regs ≡ set filled.regs 14 (some (filled.pc + 2)))
call-return_example = call-return quiet (pos 0x200) filled refl (omega arith) refl

abbrev orp_two : Instruction
orp_two = record {
  mnem = Mnem.orp;
  ops = record no_ops { j = some 2 };
  cond = none;
  cex_mask = none;
}

-- What two ticks make of `filled`, read off.
abbrev after_orp : Sim (Unit {0})
after_orp = elim (ticks quiet (some (instr orp_two) ∷ some sum_item ∷ []) filled) [
  | err e ↦ filled
  | ok (u, s) ↦ s
]

ticks-InWindow_example :
    (after_orp.count_op ≡ (if ltb 1 2 then some op_or else none))
    × (after_orp.num_count ≡ pos (min 1 2))
unfolding tick exec andor_p add_sub step_count step_carry run_item check_run read_reg value_c
    write_reg
ticks-InWindow_example =
    ticks-InWindow quiet orp_two 2 (sum_item ∷ []) filled after_orp refl refl refl refl refl

-- 0x8001ffff + 0x00050001 into registers 5 and 6.
add_word-sum_example :
    (s' : Sim (Unit {0})) × (add_word quiet 5 6 1 3 2 4 filled ≡ ok (tt, s'))
    × HoldsWord 5 6 ((0x8001ffff + 0x00050001) % 2 ^ 32) s'
    × (s'.cin ≡ 0)
add_word-sum_example =
    add_word-sum quiet 5 6 1 3 2 4 0x8001ffff 0x00050001 filled refl refl
      (omega arith, omega arith, omega arith, omega arith)
      ((λ e. omega arith), (λ e. omega arith), (λ e. omega arith)) (refl, refl) (refl, refl)
      (refl, refl)

-- 5 - 2
add_sub-negative_example :
    (s' : Sim (Unit {0})) × (add_sub quiet Mnem.add (imm_ops 5 4 (negsuc 1)) filled ≡ ok (tt, s'))
    × (s'.regs ≡ set filled.regs 5 (some ((5 + low16 (negsuc 1)) % 2 ^ 16)))
    × (s'.cin ≡ 1 - word_carry 5 (negsuc 1))
add_sub-negative_example =
    add_sub-negative quiet 5 4 5 1 filled (omega arith) (omega arith) refl (omega arith)
      (omega arith) refl

-- The state behind `jl 8`.
abbrev jumped : Sim (Unit {0})
jumped = record (init tt) {
  pc = 8;
  regs = set (init {E = Unit {0}} tt).regs 14 (some 2);
  ticks = 1;
}

ticks-jumped : ticks quiet (some (instr (jump_link (pos 8))) ∷ []) (init tt) ≡ ok (tt, jumped)
unfolding tick run_item exec check_run jmp value_c starts_with ends_with step_count step_carry
    write_reg item_size init
ticks-jumped = refl

abbrev value_of : Result (ℕ × Unit {0}) → ℕ
value_of (ok (v, e)) = v
value_of (err x) = 0

quiet-ReadsWords : ReadsWords quiet
quiet-ReadsWords a e e' v p = omega (arith, ap value_of p)

ticks-IsValid_example : IsValid jumped
ticks-IsValid_example =
    ticks-IsValid quiet (some (instr (jump_link (pos 8))) ∷ []) tt jumped quiet-ReadsWords
      ticks-jumped

-- `stm r14..r2`, across register 15, at the end of the memory.
ldstm_loop-slots_example :
    ldstm_loop quiet 16 Mnem.stm 14 2 0xfffe
    ≡ each quiet Mnem.stm (slots ((2 + 16 - 14) % 16) 0 14 0xfffe)
ldstm_loop-slots_example =
    ldstm_loop-slots quiet Mnem.stm 14 2 0xfffe (omega arith) (omega arith) (omega arith)

-- UTX of 5, of the end marker and of exit code 0.
abbrev sends_five : List ℕ
sends_five =
    0xd1 ∷ 0x1f ∷ 0x0 ∷ 0x5 ∷ 0xd1 ∷ 0x1f ∷ 0x0 ∷ 0x40 ∷ 0xd1 ∷ 0x1f ∷ 0x0 ∷ 0x40 ∷ 0xd1 ∷ 0x1f
    ∷ 0x0 ∷ 0x45 ∷ 0xd1 ∷ 0x1f ∷ 0x0 ∷ 0x4e ∷ 0xd1 ∷ 0x1f ∷ 0x0 ∷ 0x44 ∷ 0xd1 ∷ 0x1f ∷ 0x0 ∷ 0x40
    ∷ 0xd1 ∷ 0x1f ∷ 0x0 ∷ 0x40 ∷ 0xd1 ∷ 0x10 ∷ []

abbrev state_of : Result (Sim Host) → Sim Host
state_of (ok s) = s
state_of (err e) = init (load [] [])

abbrev after_five : Sim Host
after_five = state_of (run 9 sends_five [] [] (pos 5 ∷ []))

five_runs : run 9 sends_five [] [] (pos 5 ∷ []) ≡ ok after_five
unfolding run update_pins tick host init load decode decode_item matches opcode_mask opcode
    decode_instr take_imm decode_ops extract bit_length take_m run_item exit_code exec step_carry
    step_count check_run item_size utx value_c
five_runs = refl

run-output_example : after_five.env.uart_tx ≡ map low16 (pos 5 ∷ []) ++ (end_of_test ++ 0 ∷ [])
run-output_example = run-output 9 sends_five [] [] (pos 5) [] after_five five_runs
