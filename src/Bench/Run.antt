-- ===== src/Bench/Run.antt =====
-- The coroutines of scripts/tb.py, one call for each edge that they wait for, and the set-up.
use idli_v.Prelude.{
  ℕ, ◌+◌, ◌-◌, ◌*◌, ◌/◌, ◌%◌, ◌^◌, Bool, true, false, List, [], ◌∷◌, ◌++◌, map, Option, none, some,
  ℤ, low16, bit_or, Result, ok, err, struct_error, assertion, guard, leb, ◌==◌, if◌then◌else◌,
  ◌>>=◌, ◌>>◌,
}
use idli_v.Sqi
use idli_v.Sqi.{empty, backdoor_load, Cycle, cycle}
use idli_v.Split.{low_byte, high_byte}
use idli_v.Sim.State.{init}
use idli_v.Sim.Tick.{tick}
use idli_v.Sim.Host.{load_from, PinEvent, end_of_test}
use idli_v.Uart.{urx_init, utx_init, urx_edge, utx_edge}
use idli_v.Bench.{Board, store, Scores, callback, Rtl, Bench}
use idli_v.Bench.Check.{
  check_pc, check_reg_writes, check_pred_writes, check_pin_writes, check_mem_writes,
  check_uart_data, with_scores,
}

-- `_load_binary` from address `addr` on.
unfoldable pub load_words : ℕ → List ℕ → Sqi.Memory → Sqi.Memory → Result (Sqi.Memory × Sqi.Memory)
load_words addr [] lo hi = ok (lo, hi)
load_words addr (x ∷ []) lo hi = err struct_error
load_words addr (x ∷ y ∷ rest) lo hi =
    load_words (addr + 1) rest (backdoor_load addr (low_byte (x * 256 + y)) lo)
      (backdoor_load addr (high_byte (x * 256 + y)) hi)

-- What the test's configuration says.
pub record Config : Type 0 where
  pub output : List ℤ
  pub input : List ℤ
  pub input_pin : List PinEvent

-- `Callback.__init__`
unfoldable pub scores_of : List ℕ → Config → Scores
scores_of binary c = record {
  mem = load_from 0 binary;
  sim_reg_sb = [];
  sim_pred = none;
  sim_utx = [];
  sim_urx = c.input;
  sim_st_data = [];
  sim_out_pin = [];
  in_pins = 0;
}

abbrev pub loaded : Bool → List ℕ → Result (Sqi.Memory × Sqi.Memory)
loaded true binary = ok (empty, empty)
loaded false binary = load_words 0 binary empty empty

-- The bench with these two memories. UTX shifts sixteen bits out of a word and drops the rest, so
-- it gets the low bits of each.
abbrev pub new_bench : Bool → List ℕ → Config → Sqi.Memory × Sqi.Memory → Bench
new_bench fpga binary c memories = record {
  fpga = fpga;
  mem_lo = memories.0;
  mem_hi = memories.1;
  sim = init (scores_of binary c);
  rtl_utx = [];
  ref_utx = map low16 c.output ++ end_of_test;
  rtl_st_data_lo = [];
  rtl_st_data_hi = [];
  exit_code = none;
  urx = urx_init;
  utx = utx_init (map low16 c.input);
  in_pins_next = c.input_pin;
  end_of_test = false;
  time = 0;
}

-- `__init__`; with `fpga` there are no memories, and the empty ones are not read.
unfoldable pub init_bench : Bool → List ℕ → Config → Result Bench
unfolding load_words
init_bench fpga binary c = loaded fpga binary >>= λ memories. ok (new_bench fpga binary c memories)

abbrev note : Option (ℕ × ℕ) → Board ℕ → Board ℕ
note none d = d
note (some (addr, v)) d = store addr v d

-- A cycle of `_run_mem` for either memory: what it drives, if anything.
unfoldable pub run_mem_lo : Bool → ℕ → Bench → Result (Option ℕ × Bench)
run_mem_lo cs sio b = do
  c ← cycle cs sio b.mem_lo
  ok (c.nibble, record b { mem_lo = c.after; rtl_st_data_lo = note c.wrote b.rtl_st_data_lo })

unfoldable pub run_mem_hi : Bool → ℕ → Bench → Result (Option ℕ × Bench)
run_mem_hi cs sio b = do
  c ← cycle cs sio b.mem_hi
  ok (c.nibble, record b { mem_hi = c.after; rtl_st_data_hi = note c.wrote b.rtl_st_data_hi })

-- `in_pins &= ~(1 << k)` and `in_pins |= v << k`
abbrev set_pin : ℕ → ℕ → ℕ → ℕ
set_pin pins k v = bit_or (pins - pins / 2 ^ k % 2 * 2 ^ k) (v * 2 ^ k)

abbrev set_pins : List (ℕ × ℕ) → ℕ → ℕ
set_pins [] pins = pins
set_pins ((k, v) ∷ rest) pins = set_pins rest (set_pin pins k v)

-- `while self.in_pins_next and time >= self.in_pins_next[0]['time']`
abbrev next_pins : List PinEvent → ℕ → ℕ → List PinEvent × ℕ
next_pins [] time pins = ([], pins)
next_pins (e ∷ events) time pins =
    if leb e.time time then next_pins events time (set_pins e.pins pins) else (e ∷ events, pins)

abbrev pub advance : Bench → Bench
advance b =
    let (events, pins) = next_pins b.in_pins_next b.time b.sim.env.in_pins in
    with_scores (λ t. record t { in_pins = pins })
      (record b { in_pins_next = events; time = b.time + 1 })

abbrev pub check_stores : Bool → Bench → Result Bench
check_stores true b = ok b
check_stores false b = check_mem_writes b

-- One round of `_check_instr`, when the hardware is done with an instruction.
unfoldable pub check_instr : Rtl → Bench → Result (Rtl × Bench)
check_instr rtl b = do
  check_pc rtl b
  t ← tick callback none b.sim
  r ← check_reg_writes rtl (record b { sim = t.1 })
  p ← check_pred_writes r.0 r.1
  o ← check_pin_writes p.0 p.1
  c ← check_stores o.1.fpga o.1
  ok (o.0, advance c)

abbrev received : Option ℕ → List ℕ
received none = []
received (some v) = v ∷ []

-- One round of `_check_uart` with the value of the line.
unfoldable pub check_uart : Option ℕ → Bench → Result Bench
check_uart tx b = do
  (v, u) ← urx_edge tx b.urx
  check_uart_data false (record b { urx = u; rtl_utx = b.rtl_utx ++ received v })

-- One round of `_send_uart`: the value that it puts on the line.
unfoldable pub send_uart : Option Bool → Bench → Result (ℕ × Bench)
send_uart ready b = do (bit, u) ← utx_edge ready b.utx; ok (bit, record b { utx = u })

-- The end of `run`, when the end of the test has come.
abbrev pub is_zero : Option ℕ → Result (Unit {0})
is_zero none = err assertion
is_zero (some code) = guard (code == 0) assertion

unfoldable pub finish : Bench → Result Bench
finish b = check_uart_data true b >>= λ b'. is_zero b'.exit_code >> ok b'
