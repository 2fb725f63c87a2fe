-- ===== src/Sim/Step.antt =====
-- One instruction of scripts/sim.py that no condition holds back: what `tick` makes of the effect
-- of its function.
use idli_v.Prelude.{
  zero, suc, if◌then◌else◌, arith, ℕ, ◌+◌, ◌-◌, ◌≡◌, refl, true, false, Option, some, ok, ◌==◌,
  get_elem?, pos,
}
use idli_v.Isa.Instr.{Item, item_size, Imm, sp}
use idli_v.Sim.State.{Callback, Sim, ◌>>=◌, lift, read_reg}
use idli_v.Sim.Exec.{value_c}
use idli_v.Sim.Tick.{
  is_idle, check_run, keeps_carry, step_count, step_carry, set_pc, exec_item, run_item,
}

-- The end of a tick whose function returned this target.
abbrev pub arrive : {E : Type 0} → Callback E → Item → Option ℕ → ℕ → Sim E → Sim E
arrive cb item target next s = step_carry (keeps_carry item) (step_count (set_pc cb target next s))

check_run-is_idle : {E : Type 0} (s : Sim E) → is_idle s.cond ≡ true → check_run s ≡ ok (true, s)
unfolding check_run
check_run-is_idle s h = rw h refl

finish_run :
    {E : Type 0} (cb : Callback E) (item : Item) (s s' : Sim E)
    → check_run (record s { pc = s.pc + (item_size item - 1) }) ≡ ok (true, s')
    → {target : Option ℕ} {s'' : Sim E} → exec_item cb item s' ≡ ok (target, s'')
    → run_item cb item s ≡ ok (tt, arrive cb item target (s.pc + item_size item) s'')
unfolding run_item
finish_run cb item s s' h e = rw (h, ◌>>=◌) (rw (e, ◌>>=◌) refl)

pub run_item-is_idle :
    {E : Type 0} (cb : Callback E) (item : Item) (s : Sim E)
    → is_idle s.cond ≡ true
    → {target : Option ℕ} {s'' : Sim E}
    → exec_item cb item (record s { pc = s.pc + (item_size item - 1) }) ≡ ok (target, s'')
    → run_item cb item s ≡ ok (tt, arrive cb item target (s.pc + item_size item) s'')
run_item-is_idle cb item s h e =
    finish_run cb item s _ (check_run-is_idle (record s { pc = s.pc + (item_size item - 1) }) h) e

module _ {E : Type 0} (s : Sim E) (r v : ℕ) where
  pub read_reg-known : get_elem? s.regs r ≡ some (some v) → read_reg (some r) s ≡ ok (v, s)
  unfolding read_reg
  read_reg-known h = rw (h, lift) refl

  pub value_c-known :
      (imm : Option Imm)
      → (r == sp) ≡ false
      → get_elem? s.regs r ≡ some (some v)
      → value_c (some r) imm s ≡ ok (pos v, s)
  unfolding value_c
  value_c-known imm e h = rw (e, ◌>>=◌) (rw (read_reg-known h, ◌>>=◌) refl)

module _ {E : Type 0} (cb : Callback E) where
  set_pc-target :
      (n next : ℕ) (s : Sim E) → (set_pc cb (some n) next s).pc ≡ (if n == 0 then next else n)
  set_pc-target zero next s = refl
  set_pc-target (suc n) next s = ground arith

  pub arrive-regs :
      (item : Item) (n next : ℕ) (s : Sim E) → (arrive cb item (some n) next s).regs ≡ s.regs
  unfolding step_carry step_count
  arrive-regs item zero next s = refl
  arrive-regs item (suc n) next s = refl

  pub arrive-cond :
      (item : Item) (n next : ℕ) (s : Sim E) → (arrive cb item (some n) next s).cond ≡ s.cond
  unfolding step_carry step_count
  arrive-cond item zero next s = refl
  arrive-cond item (suc n) next s = refl

  pub arrive-pc :
      (item : Item) (n next : ℕ) (s : Sim E)
      → (arrive cb item (some n) next s).pc ≡ (if n == 0 then next else n)
  unfolding step_carry step_count
  arrive-pc item n next s = set_pc-target n next s
