-- ===== src/Tgen.antt =====
-- scripts/tgen.py: the generator of random tests. The choices of the library `random` are a
-- parameter: a source of numbers with a state.
pub mod Make
pub mod Space
pub mod Load
pub mod Init
pub mod Pick
pub mod Choose
pub mod Operands
pub mod Target
pub mod Final
pub mod Whole
pub mod Generated
use idli_v.Prelude.{
  ℕ, zero, suc, ◌+◌, ◌-◌, ◌≤◌, Bool, true, false, not, ◌&&◌, ◌||◌, List, [], ◌∷◌, ◌++◌, Option,
  none, some, ℤ, pos, ◌+ℤ◌, low16, Result, ok, err, assertion, key_error, exception, guard, ltb,
  leb, ◌==◌, if◌then◌else◌, ◌>>=◌, ◌>>◌,
}
use idli_v.Isa.Mnem.{Mnem}
use idli_v.Isa.Instr.{Cond, Instruction}
use idli_v.Sim.State.{Callback, Sim}
use idli_v.Sim.Host.{PinEvent}
use idli_v.Bench.{Board, get, store}

-- What the generator calls of the library `random`, with the source behind each choice: `randint`
-- gives a number between two bounds, `choices` one of the mnemonics by their weights, `choice` one
-- of a list, and `choices_tf` is `choices('tf', k=..)`.
pub record Random (R : Type 0) : Type 0 where
  pub randint : ℕ → ℕ → R → ℕ × R
  pub choices : List Mnem → List ℕ → R → Mnem × R
  pub choice : List Mnem → R → Mnem × R
  pub choices_tf : ℕ → R → List Cond × R

-- What the generator writes: an instruction, `.int` or `.org`.
pub data Line : Type 0 where
  instr_line : Instruction → Line
  int_line org_line : ℕ → Line

-- `State`, without the simulator, whose callbacks it is the state of; `ticks` is that of the
-- simulator, which a tick changes behind all its callbacks. A key that is missing is `none`.
pub record State (R : Type 0) : Type 0 where
  pub cond : List Cond
  pub count : ℕ
  pub used_addrs : List ℕ
  pub instrs : List Line
  pub ld_mem : Board ℕ
  pub input : Option (List ℕ)
  pub output : Option (List ℕ)
  pub input_pin : Option (List PinEvent)
  pub finished : Bool
  pub pin_read_time : Board ℕ
  pub pin_value : Board ℕ
  pub ticks : ℕ
  pub source : R

-- The defaults, with a source of choices.
abbrev pub new_state : {R : Type 0} → R → State R
new_state r = record {
  cond = [];
  count = 0;
  used_addrs = [];
  instrs = [];
  ld_mem = [];
  input = none;
  output = none;
  input_pin = none;
  finished = false;
  pin_read_time = [];
  pin_value = [];
  ticks = 0;
  source = r;
}

abbrev pub has : ℕ → List ℕ → Bool
has a [] = false
has a (x ∷ xs) = x == a || has a xs

-- `all(addr + i not in used for i in range(space))`, in the order of the loop.
unfoldable pub free_from : ℕ → ℕ → List ℕ → Bool
free_from addr zero used = true
free_from addr (suc space) used = not (has addr used) && free_from (addr + 1) space used

-- `check_space`
unfoldable pub check_space : List ℕ → ℕ → ℕ → Bool
check_space used addr space = if ltb 0xffff (addr + space) then false else free_from addr space used

abbrev or_nil {ℓ} : {A : Type ℓ} → Option (List A) → List A
or_nil none = []
or_nil (some xs) = xs

abbrev or_key : Option ℕ → Result ℕ
or_key none = err key_error
or_key (some v) = ok v

module _ {R : Type 0} (random : Random R) where
  -- `rand_imm`
  abbrev pub rand_imm : ℕ → ℕ → State R → ℕ × State R
  rand_imm imin imax t =
      let (v, r) = random.randint imin imax t.source in (v, record t { source = r })

  -- The junk behind a branch: `left` words from `addr` on.
  pub shadow : ℕ → ℕ → State R → State R
  shadow zero addr t = t
  shadow (suc left) addr t =
      let (v, t') = rand_imm 0 0xffff t in
      shadow left (addr + 1) (
        if check_space t.used_addrs addr 1
        then record t' { instrs = t'.instrs ++ int_line v ∷ [] }
        else t)

  abbrev shadow_size : List Cond → ℕ
  shadow_size [] = 2
  shadow_size (x ∷ conds) = 0

  -- `redirect`
  abbrev pub redirect : ℕ → ℕ → State R → State R
  redirect pc next_pc t =
      let t' = shadow (shadow_size t.cond) next_pc t in
      record t' { instrs = t'.instrs ++ org_line pc ∷ [] }

  -- `write_mem`
  abbrev pub write_mem : ℕ → ℕ → State R → Result (State R)
  write_mem addr value t =
      guard (not (has addr t.used_addrs)) assertion
      >> ok (record t { used_addrs = addr ∷ t.used_addrs })

  -- `read_mem`
  abbrev load_new : ℕ → State R → ℕ × State R
  load_new addr t =
      let (v, t') = rand_imm 0 0xffff t in
      (v, record t' { used_addrs = addr ∷ t'.used_addrs; ld_mem = store addr v t'.ld_mem })

  abbrev pub read_mem : ℕ → State R → Result (ℕ × State R)
  read_mem addr t = elim (get addr t.ld_mem) [
    | some v ↦ ok (v, t)
    | none ↦ guard (not (has addr t.used_addrs)) assertion >> ok (load_new addr t)
  ]

  -- `read_uart`
  abbrev pub read_uart : State R → Result (ℤ × State R)
  read_uart t =
      let (v, t') = rand_imm 0 0xffff t in
      ok (pos v, record t' { input = some (or_nil t.input ++ v ∷ []) })

  -- `write_uart`
  abbrev pub write_uart : ℕ → State R → State R
  write_uart v t = if t.finished then t else record t { output = some (or_nil t.output ++ v ∷ []) }

  -- The values of the four pins, from pin `i` on.
  pub rand_pins : ℕ → ℕ → State R → Board ℕ × State R
  rand_pins zero i t = ([], t)
  rand_pins (suc left) i t =
      let (v, t') = rand_imm 0 1 t in
      let (rest, t'') = rand_pins left (i + 1) t' in ((i, v) ∷ rest, t'')

  -- The first read of a pin sets all of them.
  abbrev init_pins : Option (List PinEvent) → State R → State R
  init_pins (some events) t = t
  init_pins none t =
      let (values, t') = rand_pins 4 0 t in
      record t' {
        pin_read_time = (0, 0) ∷ (1, 0) ∷ (2, 0) ∷ (3, 0) ∷ [];
        pin_value = values;
        input_pin = some (record { time = 0; pins = values } ∷ []);
      }

  -- A new value at a tick between these, if there is one.
  abbrev change_pin : ℕ → ℕ → State R → ℕ × State R
  change_pin pin min_tick t =
      let (tick, t') = rand_imm min_tick (t.ticks - 2) t in
      let (value, t'') = rand_imm 0 1 t' in
      (
        value,
        record t'' {
          pin_value = store pin value t''.pin_value;
          input_pin =
              some (or_nil t''.input_pin ++ record { time = tick; pins = (pin, value) ∷ [] } ∷ []);
        },
      )

  abbrev read_at : ℕ → ℕ → State R → Result (ℕ × State R)
  read_at pin last t =
      let t' = record t { pin_read_time = store pin (t.ticks + 1) t.pin_read_time } in
      let changed = change_pin pin (last + 1) t' in
      if leb t.ticks (last + 3)
      then or_key (get pin t'.pin_value) >>= (λ v. ok (v, t'))
      else ok changed

  -- `read_pin`: the value can change if `ticks - 2` is beyond the tick after the last read.
  unfoldable pub read_pin : ℕ → State R → Result (ℕ × State R)
  unfolding rand_pins
  read_pin pin t =
      let t' = init_pins t.input_pin t in
      or_key (get pin t'.pin_read_time) >>= λ last. read_at pin last t'

  -- `class Callback`
  unfoldable pub callback : Callback (State R)
  unfolding shadow
  callback = record {
    write_reg = λ r v t. t;
    write_pred = λ v t. t;
    write_cond = λ c t. t;
    write_mem = write_mem;
    read_mem = read_mem;
    write_uart = write_uart;
    read_uart = read_uart;
    fetch = λ pc t. err exception;
    write_pin = λ n v t. t;
    read_pin = read_pin;
    redirect = redirect;
  }
