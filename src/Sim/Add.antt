-- ===== src/Sim/Add.antt =====
-- The additions of scripts/sim.py, alone and in a chain that CARRY joins.
use idli_v.Prelude.{
  ℕ, zero, suc, ◌+◌, ◌/◌, ◌%◌, ◌^◌, ◌≤◌, ◌<◌, ◌≡◌, ◌≢◌, refl, sym, ◌∙◌, arith, true, false, none,
  some, ok, set, get_elem?, ◌==◌, ltb, if◌then◌else◌, pos, ◌+ℤ◌, length, length-set,
  get_elem?-set_self, get_elem?-set_ne,
}
use idli_v.Isa.Mnem.{Mnem}
use idli_v.Isa.Instr.{no_ops, Instruction, instr, item_size, sp}
use idli_v.Sim.State.{Callback, Sim, M, ◌>>=◌, ◌>>◌, op_carry, write_reg}
use idli_v.Sim.Exec.{carries, add_sub, carry}
use idli_v.Sim.Tick.{is_idle, step_count, step_carry, exec, run_item}
use idli_v.Sim.Step.{run_item-is_idle, read_reg-known, value_c-known}

-- `add d, b, c` and `carry 2`.
abbrev pub add_regs : ℕ → ℕ → ℕ → Instruction
add_regs d b c = record {
  mnem = Mnem.add;
  ops = record no_ops { a = some d; b = some b; c = some c };
  cond = none;
  cex_mask = none;
}

abbrev pub carry_two : Instruction
carry_two = record {
  mnem = Mnem.carry;
  ops = record no_ops { j = some 2 };
  cond = none;
  cex_mask = none;
}

module _ {E : Type 0} (cb : Callback E) where
  pub write_reg-some :
      (r v : ℕ) (s : Sim E)
      → 1 ≤ r
      → r < 16
      → write_reg cb (some r) v s
        ≡ ok (tt, record s { regs = set s.regs r (some v); env = cb.write_reg r v s.env })
  unfolding write_reg
  write_reg-some zero v s h k = absurd (omega arith)
  write_reg-some (suc r) v s h k = let inside : ltb r 15 ≡ true = ground arith in rw inside refl

  -- What an addition does: the carry out, and the sum in the register.
  abbrev pub added : ℕ → ℕ → Sim E → Sim E
  added d v s = record s {
    cin = v / 2 ^ 16 % 2;
    regs = set s.regs d (some (v % 2 ^ 16));
    env = cb.write_reg d (v % 2 ^ 16) s.env;
  }

  pub sum_pos : (l r c : ℕ) → pos l +ℤ pos r +ℤ pos c ≡ pos (l + r + c)
  sum_pos l r c = ground arith

  exec-add :
      (d b c l r : ℕ) (s : Sim E)
      → 1 ≤ d
      → d < 16
      → (c == sp) ≡ false
      → get_elem? s.regs b ≡ some (some l)
      → get_elem? s.regs c ≡ some (some r)
      → exec cb Mnem.add (add_regs d b c).ops none s
        ≡ ok (none, added d (l + r + (if carries s then s.cin else 0)) s)
  unfolding exec add_sub
  exec-add d b c l r s lo hi ne e f =
      let cin = if carries s then s.cin else 0 in
      let value = l + r + cin in
      rw (read_reg-known s b l e, ◌>>=◌)
        (rw (value_c-known s c r none ne f, ◌>>=◌)
          (rw (sum_pos l r cin) (
            rw
              (
                write_reg-some d (value % 2 ^ 16) (record s { cin = value / 2 ^ 16 % 2 }) lo hi,
                ◌>>=◌,
              )
              refl)))

  -- The simulator after CARRY 2, and after the first addition under it.
  abbrev opened : Sim E → Sim E
  opened s = record s {
    pc = s.pc + 1;
    num_count = pos 0;
    max_count = 2;
    count_op = some op_carry;
    cin = 0;
    ticks = s.ticks + 1;
  }

  run_item-carry_two :
      (s : Sim E) → is_idle s.cond ≡ true → run_item cb (instr carry_two) s ≡ ok (tt, opened s)
  unfolding exec carry item_size step_count step_carry
  run_item-carry_two s h = run_item-is_idle cb (instr carry_two) s h refl

  abbrev halfway : ℕ → ℕ → Sim E → Sim E
  halfway d v s = record (added d v s) { pc = s.pc + 1; num_count = pos 1; ticks = s.ticks + 1 }

  run_item-low :
      (d b c l r : ℕ) (s : Sim E)
      → is_idle s.cond ≡ true
      → 1 ≤ d
      → d < 16
      → (c == sp) ≡ false
      → get_elem? s.regs b ≡ some (some l)
      → get_elem? s.regs c ≡ some (some r)
      → run_item cb (instr (add_regs d b c)) (opened s) ≡ ok (tt, halfway d (l + r + 0) (opened s))
  unfolding item_size step_count step_carry exec
  run_item-low d b c l r s h lo hi ne e f =
      run_item-is_idle cb (instr (add_regs d b c)) (opened s) h
        (exec-add d b c l r (record (opened s) { pc = s.pc + 1 + 0 }) lo hi ne e f)

  run_item-high :
      (d b c l r d' v : ℕ) (s : Sim E)
      → is_idle s.cond ≡ true
      → 1 ≤ d
      → d < 16
      → (c == sp) ≡ false
      → get_elem? (halfway d' v (opened s)).regs b ≡ some (some l)
      → get_elem? (halfway d' v (opened s)).regs c ≡ some (some r)
      → (s' : Sim E) × (run_item cb (instr (add_regs d b c)) (halfway d' v (opened s))
          ≡ ok (tt, s'))
        × (s'.regs
            ≡ set (halfway d' v (opened s)).regs d (some ((l + r + v / 2 ^ 16 % 2) % 2 ^ 16)))
        × (s'.cin ≡ 0)
  unfolding item_size step_count step_carry exec
  run_item-high d b c l r d' v s h lo hi ne e f =
      let item = instr (add_regs d b c) in
      (
        _,
        run_item-is_idle cb item (halfway d' v (opened s)) h (
            exec-add d b c l r (record (halfway d' v (opened s)) { pc = s.pc + 1 + 1 + 0 }) lo hi ne
              e f),
        refl,
        refl,
      )

-- The two halves of a 32-bit sum.
low_half : (x y : ℕ) → (x % 2 ^ 16 + y % 2 ^ 16 + 0) % 2 ^ 16 ≡ (x + y) % 2 ^ 32 % 2 ^ 16
low_half x y = omega arith

high_half :
    (x y : ℕ)
    → (x / 2 ^ 16 + y / 2 ^ 16 + (x % 2 ^ 16 + y % 2 ^ 16 + 0) / 2 ^ 16 % 2) % 2 ^ 16
      ≡ (x + y) % 2 ^ 32 / 2 ^ 16
high_half x y = omega arith

-- A pair of registers holds a 32-bit value, the low half in the first.
abbrev pub HoldsWord : {E : Type 0} → ℕ → ℕ → ℕ → Sim E → Type 0
HoldsWord lo hi x s =
    (get_elem? s.regs lo ≡ some (some (x % 2 ^ 16)))
    × (get_elem? s.regs hi ≡ some (some (x / 2 ^ 16)))

-- The three instructions of a 32-bit addition.
abbrev pub add_word : {E : Type 0} → Callback E → (d d' b b' c c' : ℕ) → M E (Unit {0})
add_word cb d d' b b' c c' =
    run_item cb (instr carry_two)
    >> run_item cb (instr (add_regs d b c))
    >> run_item cb (instr (add_regs d' b' c'))

-- CARRY 2 and two additions, the low halves first, leave the sum of two 32-bit values modulo
-- 2^32 in the target registers and the carry cleared, in a conditional state that holds nothing
-- back. The targets are two different registers other than the zero register, the high sources
-- are not the low target, and no right source is the stack pointer, which stands for an immediate.
pub add_word-sum :
    {E : Type 0} (cb : Callback E) (d d' b b' c c' x y : ℕ) (s : Sim E)
    → is_idle s.cond ≡ true
    → length s.regs ≡ 16
    → (1 ≤ d) × (d < 16) × (1 ≤ d') × (d' < 16)
    → (d ≢ d') × (d ≢ b') × (d ≢ c')
    → ((c == sp) ≡ false) × ((c' == sp) ≡ false)
    → HoldsWord b b' x s
    → HoldsWord c c' y s
    → (s' : Sim E) × (add_word cb d d' b b' c c' s ≡ ok (tt, s'))
      × HoldsWord d d' ((x + y) % 2 ^ 32) s'
      × (s'.cin ≡ 0)
add_word-sum cb d d' b b' c c' x y s h len (lo, hi, lo', hi') (n, nb, nc) (sp1, sp2) (xl, xh)
      (yl, yh) =
    let v = x % 2 ^ 16 + y % 2 ^ 16 + 0 in
    let first = run_item-carry_two cb s h in
    let second = run_item-low cb d b c (x % 2 ^ 16) (y % 2 ^ 16) s h lo hi sp1 xl yl in
    let old = some (v % 2 ^ 16) in
    let (s', third, regs, clear) =
      run_item-high cb d' b' c' (x / 2 ^ 16) (y / 2 ^ 16) d v s h lo' hi' sp2
        (get_elem?-set_ne s.regs d b' old nb ∙ xh) (get_elem?-set_ne s.regs d c' old nc ∙ yh) in
    let regs1 = set s.regs d old in
    let new = some ((x / 2 ^ 16 + y / 2 ^ 16 + v / 2 ^ 16 % 2) % 2 ^ 16) in
    let size1 : length regs1 ≡ 16 = length-set s.regs d old ∙ len in
    (
      s',
      rw (first, ◌>>=◌) (rw (second, ◌>>=◌) third),
      (
        rw regs (
            get_elem?-set_ne regs1 d' d new (λ e. n (sym e))
            ∙ (get_elem?-set_self s.regs d old (omega arith) ∙ rw (low_half x y) refl)),
        rw regs (get_elem?-set_self regs1 d' new (omega arith) ∙ rw (high_half x y) refl),
      ),
      clear,
    )
