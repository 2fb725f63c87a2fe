-- ===== src/Bench.antt =====
-- scripts/tb.py: the test bench. Its behavioural model with the scoreboards that the callbacks
-- fill, and the signals of the hardware that it is compared with, which are a parameter.
pub mod Check
pub mod Run
pub mod Writes
pub mod Stores
pub mod Stream
pub mod Program
pub mod Lockstep
use idli_v.Prelude.{
  ℕ, ◌+◌, ◌/◌, ◌%◌, ◌^◌, Bool, List, [], ◌∷◌, ◌++◌, Option, none, some, ℤ, Text, Result, ok, err,
  assertion, index_error, key_error, ◌>>=◌, ◌==◌, if◌then◌else◌,
}
use idli_v.Isa.Instr.{Item, pack_u16}
use idli_v.Objdump.{decode}
use idli_v.Sim.State.{Callback, Sim}
use idli_v.Sim.Host.{Memory, lookup, or_empty, first_item, unpack_u16, PinEvent}
use idli_v.Sqi
use idli_v.Uart.{Urx, Utx}

-- A dictionary with numbers for keys, in the order in which they were first set.
abbrev pub Board {ℓ} : Type ℓ → Type ℓ
Board A = List (ℕ × A)

module _ {ℓ} {A : Type ℓ} where
  abbrev pub get : ℕ → Board A → Option A
  get key [] = none
  get key ((k, a) ∷ rest) = if k == key then some a else get key rest

  abbrev pub store : ℕ → A → Board A → Board A
  store key a [] = (key, a) ∷ []
  store key a ((k, b) ∷ rest) = if k == key then (k, a) ∷ rest else (k, b) ∷ store key a rest

-- What the callbacks of the behavioural model change.
pub record Scores : Type 0 where
  pub mem : Memory
  pub sim_reg_sb : Board ℕ
  pub sim_pred : Option Bool
  pub sim_utx : List ℕ
  pub sim_urx : List ℤ
  pub sim_st_data : Board ℕ
  pub sim_out_pin : Board ℕ
  pub in_pins : ℕ

-- `fetch`: the word behind the last one is the first.
abbrev fetch : ℕ → Scores → Result (Item × Scores)
fetch pc t = elim (lookup pc t.mem) [
  | none ↦ err assertion
  | some bytes ↦ elim (decode (bytes ++ or_empty (lookup ((pc + 1) % 2 ^ 16) t.mem)) (some 1)) [
    | err e ↦ err e
    | ok [] ↦ err index_error
    | ok (item ∷ items) ↦ ok (item, t)
  ]
]

abbrev write_mem : ℕ → ℕ → Scores → Result Scores
write_mem addr value t = pack_u16 value >>= λ bytes.
    ok (record t { sim_st_data = store addr value t.sim_st_data; mem = (addr, bytes) ∷ t.mem })

abbrev read_mem : ℕ → Scores → Result (ℕ × Scores)
read_mem addr t = elim (lookup addr t.mem) [
  | none ↦ err key_error
  | some bytes ↦ unpack_u16 bytes >>= λ v. ok (v, t)
]

abbrev pop_urx : List ℤ → Scores → Result (ℤ × Scores)
pop_urx [] t = err index_error
pop_urx (z ∷ zs) t = ok (z, record t { sim_urx = zs })

-- `class Callback`
unfoldable pub callback : Callback Scores
callback = record {
  write_reg = λ r v t. record t { sim_reg_sb = store r v t.sim_reg_sb };
  write_pred = λ v t. record t { sim_pred = some v };
  write_cond = λ v t. t;
  write_mem = write_mem;
  read_mem = read_mem;
  write_uart = λ v t. record t { sim_utx = t.sim_utx ++ v ∷ [] };
  read_uart = λ t. pop_urx t.sim_urx t;
  fetch = fetch;
  write_pin = λ n v t. record t { sim_out_pin = store n v t.sim_out_pin };
  read_pin = λ n t. ok (t.in_pins / 2 ^ n % 2, t);
  redirect = λ pc next t. t;
}

-- The signals that the checks read when an instruction is done. The text of a signal is a list of
-- its bits, with other numbers for those that are neither 0 nor 1; the marks of what was written
-- are numbers, and the checks reset them.
pub record Rtl : Type 0 where
  pub pc : List ℕ
  pub reg_sb : ℕ
  pub reg_data : ℕ → List ℕ
  pub pred_sb : ℕ
  pub pred : List ℕ
  pub pins_out_sb : ℕ
  pub out_pins : ℕ → List ℕ

-- `TestBench`. The list `rtl_urx` is the one that `UTX` takes its words from; `time` is that of
-- `_check_instr`.
pub record Bench : Type 0 where
  pub fpga : Bool
  pub mem_lo : Sqi.Memory
  pub mem_hi : Sqi.Memory
  pub sim : Sim Scores
  pub rtl_utx : List ℕ
  pub ref_utx : List ℕ
  pub rtl_st_data_lo : Board ℕ
  pub rtl_st_data_hi : Board ℕ
  pub exit_code : Option ℕ
  pub urx : Urx
  pub utx : Utx
  pub in_pins_next : List PinEvent
  pub end_of_test : Bool
  pub time : ℕ
