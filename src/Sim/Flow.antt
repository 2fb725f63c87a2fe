-- ===== src/Sim/Flow.antt =====
-- Conditional execution in scripts/sim.py: what `_check_run` decides, and what `tick` does with an
-- instruction that is not to run.
pub mod Skip
use idli_v.Prelude.{
  ℕ, ◌+◌, ◌-◌, ◌*◌, ◌/◌, ◌%◌, ◌≤◌, ◌≡◌, refl, arith, Bool, true, false, List, [], ◌∷◌, ok, err,
  length, map, ◌==◌,
}
use idli_v.Isa.Instr.{Item, item_size, Cond, cond_t, cond_f, cond_bit}
use idli_v.Isa.Instr.Mask.{mask_value}
use idli_v.Sim.State.{Callback, Sim, M, pure, ◌>>=◌}
use idli_v.Sim.Tick.{
  runs, is_idle, bool_bit, check_run, keeps_carry, step_count, step_carry, run_item,
}

-- A skipped instruction.
pub run_item-check_run :
    {E : Type 0} (cb : Callback E) (item : Item) (s s' : Sim E)
    → check_run (record s { pc = s.pc + (item_size item - 1) }) ≡ ok (false, s')
    → run_item cb item s
      ≡ ok (
        tt,
        step_carry (keeps_carry item) (step_count (record s' { pc = s.pc + item_size item })),
      )
unfolding run_item
run_item-check_run cb item s s' h = rw (h, ◌>>=◌) refl

module _ {E : Type 0} where
  -- `_check_run` for a series of instructions, where each finds this predicate.
  abbrev pub decisions : List Bool → M E (List Bool)
  decisions [] s = pure [] s
  decisions (p ∷ ps) s = elim (check_run (record s { pred = p })) [
    | err e ↦ err e
    | ok (b, s') ↦ (decisions ps >>= λ bs. pure (b ∷ bs)) s'
  ]

-- Whether an instruction with this suffix should run.
abbrev pub allows : Cond → Bool → Bool
allows cond_t p = p
allows cond_f true = false
allows cond_f false = true

abbrev pub verdicts : List Cond → List Bool → List Bool
verdicts [] ps = map (λ p. true) ps
verdicts (x ∷ conds) [] = []
verdicts (x ∷ conds) (p ∷ ps) = allows x p ∷ verdicts conds ps

pub mask_value-pos : (conds : List Cond) → 1 ≤ mask_value conds
mask_value-pos [] = omega arith
mask_value-pos (x ∷ conds) = omega (arith, mask_value-pos conds)

allows-bit : (x : Cond) (p : Bool) → (cond_bit x == bool_bit p) ≡ allows x p
allows-bit cond_t true = refl
allows-bit cond_t false = refl
allows-bit cond_f true = refl
allows-bit cond_f false = refl

module _ {E : Type 0} where
  pub check_run-mask_value :
      (s : Sim E) (x : Cond) (m : ℕ)
      → 1 ≤ m
      → s.cond ≡ 2 * m + cond_bit x
      → check_run s ≡ ok (allows x s.pred, record s { cond = m })
  unfolding check_run
  check_run-mask_value s cond_t m h e =
      let idle : is_idle s.cond ≡ false = ground (arith, e) in
      let odd : s.cond % 2 ≡ 1 = omega arith in
      let half : s.cond / 2 ≡ m = omega arith in rw (idle, odd, half, allows-bit cond_t s.pred) refl
  check_run-mask_value s cond_f m h e =
      let idle : is_idle s.cond ≡ false = ground (arith, e) in
      let odd : s.cond % 2 ≡ 0 = omega arith in
      let half : s.cond / 2 ≡ m = omega arith in rw (idle, odd, half, allows-bit cond_f s.pred) refl

  check_run-idle : (s : Sim E) → s.cond ≡ 1 → check_run s ≡ ok (true, s)
  unfolding check_run
  check_run-idle s e = rw e refl

  decisions-idle :
      (ps : List Bool) (s : Sim E)
      → s.cond ≡ 1
      → (s' : Sim E) × (decisions ps s ≡ ok (map (λ p. true) ps, s')) × (s'.cond ≡ 1)
  decisions-idle [] s e = (s, refl, e)
  decisions-idle (p ∷ ps) s e =
      let (s', rest, last) = decisions-idle ps (record s { pred = p }) e in
      (s', rw (check_run-idle (record s { pred = p }) e, decisions, rest) refl, last)

  -- With the mask that CEX sets for its followers, exactly those whose suffix agrees with the
  -- predicate they find are run, and every instruction after them is run.
  pub decisions-mask_value :
      (conds : List Cond) (ps : List Bool) (s : Sim E)
      → s.cond ≡ mask_value conds
      → length conds ≤ length ps
      → (s' : Sim E) × (decisions ps s ≡ ok (verdicts conds ps, s')) × (s'.cond ≡ 1)
  decisions-mask_value [] ps s e h = decisions-idle ps s e
  decisions-mask_value (x ∷ conds) [] s e h = absurd (omega arith)
  decisions-mask_value (x ∷ conds) (p ∷ ps) s e h =
      let next : Sim E = record s { pred = p; cond = mask_value conds } in
      let (s', rest, last) = decisions-mask_value conds ps next refl (omega arith) in
      let first =
        check_run-mask_value (record s { pred = p }) x (mask_value conds) (mask_value-pos conds)
          e in
      (s', rw (first, decisions, rest) refl, last)
