-- ===== src/Examples/Bench.antt =====
-- The test bench at concrete inputs.
use idli_v.Prelude.{
  ℕ, ◌≡◌, ◌↔◌, refl, ap, arith, true, false, List, [], ◌∷◌, ◌++◌, none, ok, pos, map,
}
use idli_v.Prelude.Bits.{bit_length, bit_length_fuel}
use idli_v.Isa.Instr.{format_bin, item_size, size}
use idli_v.Isa.Encoding.{pattern, opcode, opcode_mask}
use idli_v.Objdump.{
  decode, decode_loop, decode_item, decode_instr, decode_ops, matches, take_imm, extract, take_m,
}
use idli_v.Sqi.{empty}
use idli_v.Split.{merge_bytes}
use idli_v.Sim.State.{Sim, init, read_reg, write_reg}
use idli_v.Sim.Exec.{add_sub, value_c}
use idli_v.Sim.Host.{load_from, lookup, end_of_test}
use idli_v.Sim.Tick.{tick, run_item, exec, step_carry, step_count, check_run}
use idli_v.Bench.{Scores, Rtl, Bench, callback, get}
use idli_v.Bench.Check.{
  with_scores, check_pc, check_regs, check_reg_writes, check_pred_writes, check_pin_writes,
  check_mem_writes, rtl_word, rtl_words, sim_words,
}
use idli_v.Bench.Run.{Config, init_bench, new_bench, scores_of, load_words, check_instr}
use idli_v.Bench.Writes.{AllAgree, check_reg_writes-AllAgree}
use idli_v.Bench.Stores.{rtl_stored, check_mem_writes-rtl_stored}
use idli_v.Bench.Stream.{Event, sim_sends, rtl_sends, checks}
use idli_v.Bench.Lockstep.{check_instr-lockstep}
use idli_v.Bench.Program.{init_bench-rtl_word}

abbrev no_config : Config
no_config = record { output = pos 7 ∷ []; input = []; input_pin = [] }

abbrev first_bench : Bench
first_bench = new_bench true [] no_config (empty, empty)

-- R2 was written.
abbrev wrote_two : Rtl
wrote_two = record {
  pc = [];
  reg_sb = 4;
  reg_data = λ i. format_bin 16 9;
  pred_sb = 0;
  pred = [];
  pins_out_sb = 0;
  out_pins = λ i. [];
}

abbrev wrote_nine : Bench
wrote_nine = with_scores (λ t. record t { sim_reg_sb = (2, 9) ∷ [] }) first_bench

check_reg_writes-AllAgree_example :
    (check_reg_writes wrote_two wrote_nine
      ≡ ok (
        record wrote_two { reg_sb = 0 },
        with_scores (λ t. record t { sim_reg_sb = [] }) wrote_nine,
      ))
    ↔ AllAgree wrote_two wrote_nine.sim.env.sim_reg_sb 15 1
check_reg_writes-AllAgree_example = check_reg_writes-AllAgree wrote_two wrote_nine

-- Both sides stored 0x1234 at address 3.
abbrev stored : Bench
stored =
    with_scores (λ t. record t { sim_st_data = (3, 0x1234) ∷ [] })
      (record first_bench { rtl_st_data_lo = (3, 0x24) ∷ []; rtl_st_data_hi = (3, 0x13) ∷ [] })

abbrev checked_stores : Bench
checked_stores =
    with_scores (λ t. record t { sim_st_data = [] })
      (record stored { rtl_st_data_lo = []; rtl_st_data_hi = [] })

stored_agree : check_mem_writes stored ≡ ok checked_stores
unfolding check_mem_writes rtl_words rtl_word sim_words merge_bytes init scores_of
stored_agree = refl

check_mem_writes-rtl_stored_example : get 3 stored.sim.env.sim_st_data ≡ rtl_stored stored 3
check_mem_writes-rtl_stored_example =
    check_mem_writes-rtl_stored stored checked_stores 3 stored_agree

-- One word of the program.
word_bench :
    (b : Bench) × (init_bench false (0x12 ∷ 0x34 ∷ []) no_config ≡ ok b)
    × (b.sim.env.mem ≡ (0, 0x12 ∷ 0x34 ∷ []) ∷ [])
unfolding init_bench load_words scores_of init load_from
word_bench = (_, refl, refl)

init_bench-rtl_word_example : rtl_word word_bench.0 0 ≡ ok 0x1234
init_bench-rtl_word_example =
    init_bench-rtl_word (0x12 ∷ 0x34 ∷ []) no_config word_bench.0 0 0x12 0x34 word_bench.1
      (omega arith) (omega arith) (omega arith) (ap (lookup 0) word_bench.2)

-- Each side sends the output, the mark and the exit code, and a check is in between.
abbrev sent : List ℕ
sent = 7 ∷ end_of_test ++ 0 ∷ []

abbrev test_events : List Event
test_events = map sim_sends sent ++ (rtl_sends 7 ∷ checks ∷ map rtl_sends (end_of_test ++ 0 ∷ []))

-- A program that is one `nop`.
abbrev nop_bench : Bench
nop_bench = new_bench false (0 ∷ 0 ∷ []) no_config (empty, empty)

abbrev idle : Rtl
idle = record {
  pc = format_bin 16 0;
  reg_sb = 0;
  reg_data = λ i. [];
  pred_sb = 0;
  pred = [];
  pins_out_sb = 0;
  out_pins = λ i. [];
}

nop_runs : (x : Rtl × Bench) × (check_instr idle nop_bench ≡ ok x)
unfolding check_instr tick run_item exec init scores_of load_from callback decode decode_loop
    decode_item decode_instr decode_ops matches pattern opcode opcode_mask check_pc check_reg_writes
    check_regs check_pred_writes check_pin_writes check_mem_writes rtl_words sim_words add_sub
    value_c read_reg write_reg item_size step_carry step_count check_run bit_length bit_length_fuel
    format_bin size take_imm extract take_m
nop_runs = (_, refl)

check_instr-lockstep_example :
    (s : Sim Scores) × (tick callback none nop_bench.sim ≡ ok (tt, s))
    × (idle.pc ≡ format_bin 16 nop_bench.sim.pc)
    × AllAgree idle s.env.sim_reg_sb 15 1
    × (get 5 s.env.sim_st_data ≡ rtl_stored (record nop_bench { sim = s }) 5)
check_instr-lockstep_example =
    check_instr-lockstep idle nop_runs.0.0 nop_bench nop_runs.0.1 5 refl nop_runs.1
