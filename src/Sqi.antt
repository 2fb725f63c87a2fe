-- ===== src/Sqi.antt =====
-- scripts/sqi.py: the model of the serial memory, one call for each edge of its clock. The log is
-- left out. The test bench runs a rising and a falling edge in each cycle (scripts/tb.py).
pub mod Transfer
use idli_v.Prelude.{
  ℕ, zero, suc, ◌+◌, ◌*◌, ◌/◌, ◌%◌, ◌^◌, Bool, true, false, Option, none, some, bit_or, Result, ok,
  err, exception, type_error, ◌==◌, if◌then◌else◌,
}

-- The modes.
abbrev pub write_mode : ℕ
write_mode = 0x2

abbrev pub read_mode : ℕ
read_mode = 0x3

-- `self.state`; `None` is `reset`.
pub data Phase : Type 0 where
  reset mode addr0 addr1 addr2 addr3 dummy0 dummy1 read0 read1 write0 write1 : Phase

-- The data by address, `none` where nothing was stored.
abbrev pub Bytes : Type 0
Bytes = ℕ → Option ℕ

pub record Memory : Type 0 where
  pub content : Bytes
  pub addr : Option ℕ
  pub phase : Phase
  pub mode : Option ℕ

abbrev pub update : Bytes → ℕ → ℕ → Bytes
update content a v i = if i == a then some v else content i

-- `__init__`
abbrev pub empty : Memory
empty = record { content = λ i. none; addr = none; phase = reset; mode = none }

-- `backdoor_load`
unfoldable pub backdoor_load : ℕ → ℕ → Memory → Memory
backdoor_load addr v m = record m { content = update m.content (addr % 2 ^ 16) (v % 2 ^ 8) }

-- What the edge wrote, and the memory after it.
abbrev pub Edge : Type 0
Edge = Result (Option (ℕ × ℕ) × Memory)

abbrev quiet : Memory → Edge
quiet m = ok (none, m)

-- The second nibble of the mode decides.
abbrev set_mode : ℕ → Memory → Edge
set_mode v m =
    if v == write_mode
    then quiet (record m { mode = some v; phase = addr0; addr = some 0 })
    else if v == read_mode
    then quiet (record m { mode = some v; phase = addr0; addr = some 0 })
    else err exception

abbrev is_read : Option ℕ → Bool
is_read none = false
is_read (some v) = v == read_mode

-- A nibble of the address.
abbrev pub shift_addr : ℕ → ℕ → ℕ
shift_addr a sio = bit_or (a * 2 ^ 4) (sio % 16) % 2 ^ 16

abbrev next_addr : ℕ → ℕ
next_addr a = (a + 1) % 2 ^ 16

abbrev pub or_zero : Option ℕ → ℕ
or_zero none = 0
or_zero (some v) = v

abbrev write_low : Option ℕ → ℕ → ℕ → Memory → Edge
write_low none a sio m = err type_error
write_low (some old) a sio m =
    let v = bit_or (old / 16 % 16 * 2 ^ 4) (sio % 16) in
    ok (
      some (a, v),
      record m { content = update m.content a v; addr = some (next_addr a); phase = write0 },
    )

-- The phases in which there is an address.
abbrev addressed : Phase → ℕ → ℕ → Memory → Edge
addressed addr0 a sio m = quiet (record m { addr = some (shift_addr a sio); phase = addr1 })
addressed addr1 a sio m = quiet (record m { addr = some (shift_addr a sio); phase = addr2 })
addressed addr2 a sio m = quiet (record m { addr = some (shift_addr a sio); phase = addr3 })
addressed addr3 a sio m =
    quiet (record m {
      addr = some (shift_addr a sio);
      phase = if is_read m.mode then dummy0 else write0;
    })
addressed write0 a sio m =
    let v = bit_or (sio % 16 * 2 ^ 4) (or_zero (m.content a) % 16) in
    quiet (record m { content = update m.content a v; phase = write1 })
addressed write1 a sio m = write_low (m.content a) a sio m
addressed _ a sio m = err type_error

abbrev need_addr : Option ℕ → ℕ → Memory → Edge
need_addr none sio m = err type_error
need_addr (some a) sio m = addressed m.phase a sio m

abbrev second_nibble : Option ℕ → ℕ → Memory → Edge
second_nibble none sio m = err type_error
second_nibble (some v) sio m = set_mode (bit_or (v * 2 ^ 4) (sio % 16)) m

-- The chain of tests on the phase, with CS low.
abbrev active : Phase → ℕ → Memory → Edge
active reset sio m = quiet (record m { mode = some (sio % 16); phase = mode })
active mode sio m = second_nibble m.mode sio m
active dummy0 sio m = quiet (record m { phase = dummy1 })
active dummy1 sio m = quiet (record m { phase = read0 })
active read0 sio m = quiet (record m { phase = read1 })
active read1 sio m = quiet (record m { phase = read0 })
active _ sio m = need_addr m.addr sio m

-- `rising_edge`
unfoldable pub rising_edge : Option Bool → Option ℕ → Memory → Edge
rising_edge none sio m = err exception
rising_edge (some cs) none m = err exception
rising_edge (some true) (some sio) m = quiet (record m { addr = none; phase = reset; mode = none })
rising_edge (some false) (some sio) m = active m.phase sio m

-- The nibble that is read, and the memory after it.
abbrev pub Fall : Type 0
Fall = Result (Option ℕ × Memory)

abbrev high_nibble : Option ℕ → Memory → Fall
high_nibble none m = err exception
high_nibble (some v) m = ok (some (v / 2 ^ 4 % 16), m)

abbrev low_nibble : Option ℕ → ℕ → Memory → Fall
low_nibble none a m = err exception
low_nibble (some v) a m = ok (some (v % 16), record m { addr = some (next_addr a) })

abbrev falling : Phase → Option ℕ → Memory → Fall
falling read0 none m = err type_error
falling read0 (some a) m = high_nibble (m.content a) m
falling read1 none m = err type_error
falling read1 (some a) m = low_nibble (m.content a) a m
falling _ a m = ok (none, m)

-- `falling_edge`
unfoldable pub falling_edge : Memory → Fall
falling_edge m = falling m.phase m.addr m

-- One cycle of `_run_mem` in scripts/tb.py: the write of the rising edge, and the nibble that the
-- falling edge drives.
pub record Cycle : Type 0 where
  pub wrote : Option (ℕ × ℕ)
  pub nibble : Option ℕ
  pub after : Memory

abbrev fall : Option (ℕ × ℕ) → Fall → Result Cycle
fall w (ok (n, m)) = ok (record { wrote = w; nibble = n; after = m })
fall w (err e) = err e

unfoldable pub cycle : Bool → ℕ → Memory → Result Cycle
unfolding rising_edge falling_edge
cycle cs sio m = elim (rising_edge (some cs) (some sio) m) [
  | err e ↦ err e
  | ok (w, m') ↦ fall w (falling_edge m')
]
