-- ===== src/Sim/Flow/Skip.antt =====
-- A CEX of scripts/sim.py none of whose followers run.
use idli_v.Prelude.{
  ℕ, ◌+◌, ◌-◌, ◌≡◌, refl, ap, ◌∙◌, arith, true, false, not, some, none, List, [], ◌∷◌, map, all, ok,
  length,
}
use idli_v.Isa.Mnem.{Mnem}
use idli_v.Isa.Instr.{Item, instr, Instruction, item_size, Cond}
use idli_v.Isa.Instr.Mask.{mask_value}
use idli_v.Sim.State.{Callback, Sim, write_cond, ◌>>=◌}
use idli_v.Sim.Exec.{cex}
use idli_v.Sim.Tick.{
  is_idle, check_run, keeps_carry, step_count, step_carry, exec, exec_item, run_item, tick,
}
use idli_v.Sim.Step.{arrive, run_item-is_idle}
use idli_v.Sim.Flow.{allows, mask_value-pos, check_run-mask_value, run_item-check_run}
use idli_v.Sim.Registers.Tick.{ticks}

abbrev pub sizes : List Item → ℕ
sizes [] = 0
sizes (item ∷ items) = item_size item + sizes items

-- Past items of this size, without a change of the registers, the predicate or the pins, and with
-- no condition left; the callbacks' state is the one given.
abbrev pub Passed : {E : Type 0} → ℕ → E → Sim E → Sim E → Type 0
Passed n env s s' =
    (s'.regs ≡ s.regs)
    × (s'.pred ≡ s.pred)
    × (s'.out_pins ≡ s.out_pins)
    × (s'.env ≡ env)
    × (s'.pc ≡ s.pc + n)
    × (s'.cond ≡ 1)

module _ {E : Type 0} (cb : Callback E) where
  abbrev skipped : Item → ℕ → Sim E → Sim E
  skipped item m s =
      step_carry (keeps_carry item) (step_count (record s { pc = s.pc + item_size item; cond = m }))

  run_item-skipped :
      (item : Item) (s : Sim E) (x : Cond) (conds : List Cond)
      → s.cond ≡ mask_value (x ∷ conds)
      → allows x s.pred ≡ false
      → run_item cb item s ≡ ok (tt, skipped item (mask_value conds) s)
  run_item-skipped item s x conds e h =
      let moved = record s { pc = s.pc + (item_size item - 1) } in
      let checked : check_run moved ≡ ok (false, record moved { cond = mask_value conds }) =
        check_run-mask_value moved x (mask_value conds) (mask_value-pos conds) e
        ∙ ap (λ b. ok (b, record moved { cond = mask_value conds })) h in
      run_item-check_run cb item s (record moved { cond = mask_value conds }) checked

  ticks-skipped :
      (conds : List Cond) (items : List Item) (s : Sim E)
      → s.cond ≡ mask_value conds
      → length items ≡ length conds
      → all (λ x. not (allows x s.pred)) conds ≡ true
      → (s' : Sim E) × (ticks cb (map some items) s ≡ ok (tt, s')) × Passed (sizes items) s.env s s'
  unfolding tick step_carry step_count
  ticks-skipped [] [] s e l h = (s, refl, (refl, refl, refl, refl, omega arith, e))
  ticks-skipped [] (item ∷ items) s e l h = absurd (omega (arith, l))
  ticks-skipped (x ∷ conds) [] s e l h = absurd (omega (arith, l))
  ticks-skipped (x ∷ conds) (item ∷ items) s e l h =
      let next = skipped item (mask_value conds) s in
      let first = run_item-skipped item s x conds e (ground (arith, h)) in
      let (s', rest, (regs, pred, pins, env, pc, cond)) =
        ticks-skipped conds items next refl (omega (arith, l)) (ground (arith, h)) in
      (s', rw (first, ◌>>=◌) rest, (regs, pred, pins, env, omega (arith, pc), cond))

  exec-cex :
      (i : Instruction) (m : ℕ) (s : Sim E)
      → i.mnem ≡ Mnem.cex
      → i.cex_mask ≡ some m
      → exec_item cb (instr i) s ≡ ok (none, record s { cond = m; env = cb.write_cond m s.env })
  unfolding exec cex write_cond
  exec-cex i m s k c = rw (k, c) refl

  run_item-cex :
      (i : Instruction) (m : ℕ) (s : Sim E)
      → i.mnem ≡ Mnem.cex
      → i.cex_mask ≡ some m
      → is_idle s.cond ≡ true
      → run_item cb (instr i) s
        ≡ ok (
          tt,
          arrive cb (instr i) none (s.pc + item_size (instr i)) (record s {
            pc = s.pc + (item_size (instr i) - 1);
            cond = m;
            env = cb.write_cond m s.env;
          }),
        )
  run_item-cex i m s k c idle =
      run_item-is_idle cb (instr i) s idle
        (exec-cex i m (record s { pc = s.pc + (item_size (instr i) - 1) }) k c)

-- A CEX with the mask of these conditions, that no condition holds back, and then one given
-- instruction of any kind for each condition, where all of the conditions disagree with the
-- predicate: all of them are done without an error, none of the instructions behind the CEX changes
-- a register, the predicate or a pin or makes a call, the program counter passes over each with
-- its immediate, and no condition is left for the instruction behind them.
pub ticks-Passed :
    {E : Type 0} (cb : Callback E) (i : Instruction) (conds : List Cond) (items : List Item)
    (s : Sim E)
    → i.mnem ≡ Mnem.cex
    → i.cex_mask ≡ some (mask_value conds)
    → is_idle s.cond ≡ true
    → length items ≡ length conds
    → all (λ x. not (allows x s.pred)) conds ≡ true
    → (s' : Sim E) × (ticks cb (some (instr i) ∷ map some items) s ≡ ok (tt, s'))
      × Passed (sizes (instr i ∷ items)) (cb.write_cond (mask_value conds) s.env) s s'
unfolding tick step_carry step_count
ticks-Passed cb i conds items s k c idle l h =
    let m = mask_value conds in
    let item = instr i in
    let marked = record s {
      pc = s.pc + (item_size item - 1);
      cond = m;
      env = cb.write_cond m s.env;
    } in
    let next = arrive cb item none (s.pc + item_size item) marked in
    let (s', rest, (regs, pred, pins, env, pc, cond)) =
      ticks-skipped cb conds items next refl l h in
    (
      s',
      rw (run_item-cex cb i m s k c idle, ◌>>=◌) rest,
      (regs, pred, pins, env, omega (arith, pc), cond),
    )
