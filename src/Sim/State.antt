-- ===== src/Sim/State.antt =====
-- The state of `Sim` in scripts/sim.py, its callbacks, and the actions on them. What the callbacks
-- keep for themselves is a state `E` of their own. The trace that `_log` prints is left out, but
-- an action that formats `None` for it raises.
use idli_v.Prelude.{
  ℕ, zero, suc, Bool, false, ◌&&◌, ◌||◌, List, ◌∷◌, Option, none, some, ℤ, pos, get_elem?, set,
  Result, ok, err, Error, type_error, key_error, index_error, length, ltb, if◌then◌else◌, replicate,
}
use idli_v.Isa.Instr.{Item}

-- `class Callback`. A callback that returns `None` where the simulator computes with the value
-- raises too.
pub record Callback (E : Type 0) : Type 0 where
  pub write_reg : ℕ → ℕ → E → E
  pub write_pred : Bool → E → E
  pub write_cond : ℕ → E → E
  pub write_mem : ℕ → ℕ → E → Result E
  pub read_mem : ℕ → E → Result (ℕ × E)
  pub write_uart : ℕ → E → E
  pub read_uart : E → Result (ℤ × E)
  pub fetch : ℕ → E → Result (Item × E)
  pub write_pin : ℕ → ℕ → E → E
  pub read_pin : ℕ → E → Result (ℕ × E)
  pub redirect : ℕ → ℕ → E → E

-- `count_op`: `None` is `none`.
pub data CountOp : Type 0 where
  op_carry op_and op_or : CountOp

pub record Sim (E : Type 0) : Type 0 where
  pub pc : ℕ
  pub regs : List (Option ℕ)
  pub pred : Bool
  pub cond : ℕ
  pub num_count : ℤ
  pub max_count : ℕ
  pub count_op : Option CountOp
  pub cin : ℕ
  pub ticks : ℕ
  pub out_pins : List (Option ℕ)
  pub env : E

-- `__init__`
unfoldable pub init : {E : Type 0} → E → Sim E
init e = record {
  pc = 0;
  regs = some 0 ∷ replicate 15 none;
  pred = false;
  cond = 0;
  num_count = pos 0;
  max_count = 0;
  count_op = none;
  cin = 0;
  ticks = 0;
  out_pins = replicate 4 none;
  env = e;
}

-- A method: it changes the simulator, or raises.
abbrev pub M : Type 0 → Type 0 → Type 0
M E A = Sim E → Result (A × Sim E)

module _ {E A : Type 0} where
  abbrev pub pure : A → M E A
  pure a s = ok (a, s)

  abbrev pub raise : Error → M E A
  raise e s = err e

  abbrev pub gets : (Sim E → A) → M E A
  gets f s = ok (f s, s)

  abbrev pub lift : Result A → M E A
  lift (ok a) s = ok (a, s)
  lift (err e) s = err e

module _ {E A B : Type 0} where
  infixl 5 ◌>>=◌ ◌>>◌
  abbrev pub ◌>>=◌ : M E A → (A → M E B) → M E B
  ◌>>=◌ m f s = elim (m s) [ err e ↦ err e | ok (a, s') ↦ f a s' ]

  abbrev pub ◌>>◌ : M E A → M E B → M E B
  m >> n = m >>= λ _. n

-- What `self.regs[r]` holds, for a value that is computed with.
abbrev pub known : Option (Option ℕ) → Result ℕ
known none = err index_error
known (some none) = err type_error
known (some (some v)) = ok v

module _ {E : Type 0} where
  abbrev pub modify : (Sim E → Sim E) → M E (Unit {0})
  modify f s = ok (tt, f s)

  -- `self.regs[r]`, for a value that is computed with.
  unfoldable pub read_reg : Option ℕ → M E ℕ
  read_reg none s = err type_error
  read_reg (some r) s = lift (known (get_elem? s.regs r)) s

module _ {E : Type 0} (cb : Callback E) where
  -- `_write_reg`
  unfoldable pub write_reg : Option ℕ → ℕ → M E (Unit {0})
  write_reg none value s = ok (tt, s)
  write_reg (some zero) value s = ok (tt, s)
  write_reg (some (suc r)) value s =
      if ltb r 15
      then ok (
        tt,
        record s { regs = set s.regs (suc r) (some value); env = cb.write_reg (suc r) value s.env },
      )
      else err key_error

  -- The value that `_write_pred` stores.
  abbrev pub combine : Option CountOp → Bool → Bool → Bool
  combine (some op_and) p value = p && value
  combine (some op_or) p value = p || value
  combine _ p value = value

  -- `_write_pred`
  unfoldable pub write_pred : Bool → M E (Unit {0})
  write_pred value s =
      let value' = combine s.count_op s.pred value in
      ok (tt, record s { pred = value'; env = cb.write_pred value' s.env })

  -- `_write_cond`
  unfoldable pub write_cond : Option ℕ → M E (Unit {0})
  write_cond none = raise type_error
  write_cond (some value) = modify (λ s. record s { cond = value; env = cb.write_cond value s.env })

  -- `_write_out_pin`
  unfoldable pub write_out_pin : ℕ → ℕ → M E (Unit {0})
  write_out_pin pin value s =
      if ltb pin (length s.out_pins)
      then ok (
        tt,
        record s { out_pins = set s.out_pins pin (some value); env = cb.write_pin pin value s.env },
      )
      else err index_error

  -- The callbacks that return a value, and `write_mem`, as actions.
  abbrev pub call : {A : Type 0} → (E → Result (A × E)) → M E A
  call f s = elim (f s.env) [ err e ↦ err e | ok (a, e') ↦ ok (a, record s { env = e' }) ]

  abbrev pub write_mem : ℕ → ℕ → M E (Unit {0})
  write_mem addr value s = elim (cb.write_mem addr value s.env) [
    | err e ↦ err e
    | ok e' ↦ ok (tt, record s { env = e' })
  ]
