-- ===== src/Sim/Host.antt =====
-- The main program of scripts/sim.py: memory, UART and pins behind the callbacks (`Cb`), and the
-- loop over the ticks. The files that it reads are its arguments.
use mathlib.Core.List.{reverse}
use idli_v.Prelude.{
  list_eq, ℕ, zero, suc, ◌+◌, ◌*◌, Bool, true, List, [], ◌∷◌, ◌++◌, map, Option, none, some, ℤ,
  low16, get_elem?, set, length, take, drop, replicate, Result, ok, err, exception, type_error,
  index_error, struct_error, leb, ltb, ◌==◌, if◌then◌else◌, ◌>>=◌,
}
use idli_v.Isa.Mnem.{codes}
use idli_v.Isa.Instr.{Item, pack_u16}
use idli_v.Objdump.{decode}
use idli_v.Sim.State.{Callback, Sim, init}
use idli_v.Sim.Tick.{tick}

-- `self.mem`: the bytes at an address; a later entry is found behind a newer one.
abbrev pub Memory : Type 0
Memory = List (ℕ × List ℕ)

abbrev pub lookup : ℕ → Memory → Option (List ℕ)
lookup addr [] = none
lookup addr ((a, bytes) ∷ mem) = if a == addr then some bytes else lookup addr mem

pub record Host : Type 0 where
  pub mem : Memory
  pub uart_tx : List ℕ
  pub uart_rx : List ℤ
  pub pins : List (Option ℕ)

-- The words of the binary from address `i` on; an odd byte at the end is dropped.
unfoldable pub load_from : ℕ → List ℕ → Memory
load_from i (hi ∷ lo ∷ rest) = (i, hi ∷ lo ∷ []) ∷ load_from (i + 1) rest
load_from i _ = []

-- `__init__` of `Cb`
unfoldable pub load : List ℕ → List ℤ → Host
unfolding load_from
load binary input = record {
  mem = load_from 0 binary;
  uart_tx = [];
  uart_rx = input;
  pins = replicate 4 none;
}

abbrev pub or_empty : Option (List ℕ) → List ℕ
or_empty none = []
or_empty (some bytes) = bytes

abbrev pub first_item : Result (List Item) → Host → Result (Item × Host)
first_item (ok (item ∷ items)) h = ok (item, h)
first_item (ok []) h = err index_error
first_item (err e) h = err e

-- `fetch`: the word at `pc`, with the next one behind it if there is one.
abbrev pub fetch : ℕ → Host → Result (Item × Host)
fetch pc h = elim (lookup pc h.mem) [
  | none ↦ err exception
  | some bytes ↦ first_item (decode (bytes ++ or_empty (lookup (pc + 1) h.mem)) (some 1)) h
]

abbrev pub unpack_u16 : List ℕ → Result ℕ
unpack_u16 (hi ∷ lo ∷ []) = ok (hi * 256 + lo)
unpack_u16 _ = err struct_error

abbrev with_host : Host → Result ℕ → Result (ℕ × Host)
with_host h (ok v) = ok (v, h)
with_host h (err e) = err e

abbrev read_mem : ℕ → Host → Result (ℕ × Host)
read_mem addr h = elim (lookup addr h.mem) [
  | none ↦ err exception
  | some bytes ↦ with_host h (unpack_u16 bytes)
]

abbrev write_mem : ℕ → ℕ → Host → Result Host
write_mem addr value h = elim (pack_u16 value) [
  | err e ↦ err e
  | ok bytes ↦ ok (record h { mem = (addr, bytes) ∷ h.mem })
]

abbrev pop_uart : List ℤ → Host → Result (ℤ × Host)
pop_uart [] h = err exception
pop_uart (z ∷ zs) h = ok (z, record h { uart_rx = zs })

abbrev pin_value : Option (Option ℕ) → Host → Result (ℕ × Host)
pin_value none h = err index_error
pin_value (some none) h = err type_error
pin_value (some (some v)) h = ok (v, h)

-- `class Cb`
unfoldable pub host : Callback Host
unfolding pack_u16
host = record {
  write_reg = λ r v h. h;
  write_pred = λ v h. h;
  write_cond = λ v h. h;
  write_mem = write_mem;
  read_mem = read_mem;
  write_uart = λ v h. record h { uart_tx = h.uart_tx ++ v ∷ [] };
  read_uart = λ h. pop_uart h.uart_rx h;
  fetch = fetch;
  write_pin = λ n v h. h;
  read_pin = λ n h. pin_value (get_elem? h.pins n) h;
  redirect = λ pc next h. h;
}

-- An entry of `input_pin`: from this time on, these pins have these values.
pub record PinEvent : Type 0 where
  pub time : ℕ
  pub pins : List (ℕ × ℕ)

abbrev set_pins : List (ℕ × ℕ) → List (Option ℕ) → Result (List (Option ℕ))
set_pins [] pins = ok pins
set_pins ((k, v) ∷ rest) pins =
    if ltb k (length pins) then set_pins rest (set pins k (some v)) else err index_error

-- `while input_pin and sim.ticks >= input_pin[0]['time']`
unfoldable pub update_pins :
    List PinEvent → ℕ → List (Option ℕ) → Result (List PinEvent × List (Option ℕ))
update_pins [] ticks pins = ok ([], pins)
update_pins (e ∷ events) ticks pins =
    if leb e.time ticks
    then elim (set_pins e.pins pins) [ err x ↦ err x | ok pins' ↦ update_pins events ticks pins' ]
    else ok (e ∷ events, pins)

abbrev pub end_of_test : List ℕ
end_of_test = codes "@@END@@"

abbrev pub check_end : List ℕ → Option ℕ
check_end [] = none
check_end (code ∷ before) =
    if list_eq (reverse (take 7 before)) end_of_test then some code else none

-- The exit code, once `uart_tx` ends with the marker and one value more.
unfoldable pub exit_code : List ℕ → Option ℕ
exit_code tx = check_end (reverse tx)

-- The loop over `range(timeout)`; without an exit code it has timed out.
unfoldable pub run_loop : ℕ → List PinEvent → Sim Host → Result (ℕ × Sim Host)
run_loop zero events s = err exception
run_loop (suc timeout) events s = update_pins events s.ticks s.env.pins >>= λ p.
    tick host none (record s { env = record s.env { pins = p.1 } }) >>= λ x.
    elim (exit_code (x.1).env.uart_tx) [
      | some code ↦ ok (code, x.1)
      | none ↦ run_loop timeout (p.0) (x.1)
    ]

-- `if args.yaml.get('output')`: an empty list is not checked.
abbrev pub check_output : List ℤ → List ℕ → Bool
check_output [] tx = true
check_output (z ∷ zs) tx = list_eq (reverse (drop 8 (reverse tx))) (map low16 (z ∷ zs))

abbrev pub check_run : List ℤ → Result (ℕ × Sim Host) → Result (Sim Host)
check_run output (err x) = err x
check_run output (ok (suc code, s)) = err exception
check_run output (ok (zero, s)) = if check_output output s.env.uart_tx then ok s else err exception

-- The whole run of a binary against its configuration.
unfoldable pub run : ℕ → List ℕ → List ℤ → List PinEvent → List ℤ → Result (Sim Host)
unfolding run_loop
run timeout binary input events output =
    check_run output (run_loop timeout events (init (load binary input)))
