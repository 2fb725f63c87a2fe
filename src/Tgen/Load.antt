-- ===== src/Tgen/Load.antt =====
-- The instructions that scripts/tgen.py begins a test with, each for itself.
use idli_v.Prelude.{
  ℕ, zero, suc, ◌+◌, ◌/◌, ◌%◌, ◌^◌, ◌≤◌, ◌<◌, ◌≡◌, refl, ◌∙◌, arith, Bool, true, false, List, [],
  ◌∷◌, Option, none, some, ok, pos, ◌+ℤ◌, get_elem?, set, length, length-set, get_elem?-set_ne,
  ◌==◌, if◌then◌else◌,
}
use idli_v.Isa.Mnem.{Mnem}
use idli_v.Isa.Instr.{instr, item_size, size}
use idli_v.Sim.State.{◌>>=◌, CountOp, Callback, Sim, write_pred}
use idli_v.Sim.Exec.{carries, add_sub, value_c, putp}
use idli_v.Sim.Tick.{exec, tick, is_idle, step_count, step_carry}
use idli_v.Sim.Step.{read_reg-known, value_c-known, run_item-is_idle, arrive}
use idli_v.Sim.Add.{added, write_reg-some}
use idli_v.Tgen.{Random, State, has, callback}
use idli_v.Tgen.Make.{alloc, emit, load_imm, clear_pred, with_used}

abbrev AllBelow : ℕ → List ℕ → Type 0
AllBelow bound [] = Unit {0}
AllBelow bound (a ∷ used) = (a < bound) × AllBelow bound used

has-AllBelow : (bound a : ℕ) (used : List ℕ) → AllBelow bound used → bound ≤ a → has a used ≡ false
has-AllBelow bound a [] h k = refl
has-AllBelow bound a (x ∷ used) h k =
    let other : (x == a) ≡ false = ground (arith, h.0, k) in
    rw other (has-AllBelow bound a used h.1 k)

AllBelow-le : (m n : ℕ) (used : List ℕ) → AllBelow m used → m ≤ n → AllBelow n used
AllBelow-le m n [] h k = tt
AllBelow-le m n (x ∷ used) h k = (omega (arith, h.0), AllBelow-le m n used h.1 k)

-- The registers below `n` hold 16-bit values.
abbrev pub AllKnown : ℕ → List (Option ℕ) → Type 0
AllKnown zero regs = Unit {0}
AllKnown (suc n) regs =
    ((v : ℕ) × (get_elem? regs n ≡ some (some v)) × (v < 2 ^ 16)) × AllKnown n regs

pub AllKnown-set :
    (n r v : ℕ) (regs : List (Option ℕ))
    → n ≤ r
    → AllKnown n regs
    → AllKnown n (set regs r (some v))
AllKnown-set zero r v regs h k = tt
AllKnown-set (suc n) r v regs h ((w, e, small), k) = (
  (w, get_elem?-set_ne regs r n (some v) (λ x. omega (arith, x, h)) ∙ e, small),
  AllKnown-set n r v regs (omega (arith, h)) k,
)

module _ {E : Type 0} (cb : Callback E) where
  exec-load_imm :
      (r v : ℕ) (s : Sim E)
      → 1 ≤ r
      → r < 16
      → s.count_op ≡ none
      → get_elem? s.regs 0 ≡ some (some 0)
      → exec cb Mnem.add (load_imm r v).ops none s ≡ ok (none, added cb r v s)
  unfolding exec add_sub value_c
  exec-load_imm r v s lo hi c z =
      let sum : pos 0 +ℤ pos v +ℤ pos 0 ≡ pos v = ground arith in
      let no_carry : carries s ≡ false = rw c refl in
      rw (read_reg-known s 0 0 z, ◌>>=◌)
        (rw (no_carry, sum)
          (rw (write_reg-some cb r (v % 2 ^ 16) (record s { cin = v / 2 ^ 16 % 2 }) lo hi, ◌>>=◌)
            refl))

  exec-clear_pred :
      (s : Sim E)
      → s.count_op ≡ none
      → get_elem? s.regs 0 ≡ some (some 0)
      → exec cb Mnem.putp clear_pred.ops none s
        ≡ ok (none, record s { pred = false; env = cb.write_pred false s.env })
  unfolding exec putp write_pred
  exec-clear_pred s c z = rw (value_c-known s 0 0 none refl z, ◌>>=◌) (rw c refl)

alloc-one : (pc : ℕ) (used : List ℕ) → AllBelow pc used → alloc 1 pc used ≡ ok (pc ∷ used)
unfolding alloc
alloc-one pc used h = rw (has-AllBelow pc pc used h (omega arith)) refl

alloc-two :
    (pc : ℕ) (used : List ℕ) → AllBelow pc used → alloc 2 pc used ≡ ok ((pc + 1) ∷ pc ∷ used)
unfolding alloc
alloc-two pc used h =
    let first = has-AllBelow pc pc used h (omega arith) in
    let second = has-AllBelow pc (pc + 1) used h (omega arith) in
    let apart : (pc == pc + 1) ≡ false = ground arith in rw (first, apart, second) refl

module _ {R : Type 0} (random : Random R) where
  -- A simulator that is between the loads of registers.
  pub record Ready (s : Sim (State R)) : Type 0 where
    pub no_cond : s.cond ≡ 0
    pub no_count : s.count_op ≡ none
    pub zero_reg : get_elem? s.regs 0 ≡ some (some 0)
    pub below : AllBelow s.pc s.env.used_addrs
    pub sixteen : length s.regs ≡ 16

  no_op : (b : Bool) {op : Option CountOp} → op ≡ none → (if b then op else none) ≡ none
  no_op true h = h
  no_op false h = refl

  -- What the load of a register does.
  pub record Loaded (r v : ℕ) (s s' : Sim (State R)) : Type 0 where
    pub runs : emit random (load_imm r v) s ≡ ok s'
    pub ready : Ready s'
    pub next : s'.pc ≡ s.pc + 2
    pub regs : s'.regs ≡ set s.regs r (some (v % 2 ^ 16))

  pub emit-load_imm :
      (r v : ℕ) (s : Sim (State R))
      → 1 ≤ r
      → r < 16
      → Ready s
      → (s' : Sim (State R)) × Loaded r v s s'
  unfolding emit tick item_size size step_count step_carry callback
  emit-load_imm r v s lo hi h =
      let cb = callback random in
      let used = (s.pc + 1) ∷ s.pc ∷ s.env.used_addrs in
      let s1 = with_used random used s in
      let item = instr (load_imm r v) in
      let idle : is_idle s.cond ≡ true = rw h.no_cond refl in
      let runs =
        run_item-is_idle cb item s1 idle
          (exec-load_imm cb r v (record s1 { pc = s.pc + 1 }) lo hi h.no_count h.zero_reg) in
      let s2 = arrive cb item none (s.pc + 2) (added cb r v (record s1 { pc = s.pc + 1 })) in
      (
        s2,
        record {
          runs = rw (alloc-two s.pc s.env.used_addrs h.below) (rw runs refl);
          ready = record {
            no_cond = h.no_cond;
            no_count = no_op _ h.no_count;
            zero_reg =
                get_elem?-set_ne s.regs r 0 (some (v % 2 ^ 16)) (λ e. omega (arith, e, lo))
                ∙ h.zero_reg;
            below = (
              omega arith,
              (omega arith, AllBelow-le s.pc (s.pc + 2) s.env.used_addrs h.below (omega arith)),
            );
            sixteen = length-set s.regs r (some (v % 2 ^ 16)) ∙ h.sixteen;
          };
          next = refl;
          regs = refl;
        },
      )

  pub emit-clear_pred :
      (s : Sim (State R))
      → Ready s
      → (s' : Sim (State R)) × (emit random clear_pred s ≡ ok s')
        × (s'.regs ≡ s.regs)
        × (s'.pc ≡ s.pc + 1)
  unfolding emit tick item_size size step_count step_carry callback
  emit-clear_pred s h =
      let cb = callback random in
      let s1 = with_used random (s.pc ∷ s.env.used_addrs) s in
      let item = instr clear_pred in
      let s0 = record s1 { pc = s.pc + 0 } in
      let idle : is_idle s.cond ≡ true = rw h.no_cond refl in
      let runs = run_item-is_idle cb item s1 idle (exec-clear_pred cb s0 h.no_count h.zero_reg) in
      let s2 =
        arrive cb item none (s.pc + 1)
          (record s0 { pred = false; env = cb.write_pred false s0.env }) in
      (s2, rw (alloc-one s.pc s.env.used_addrs h.below) (rw runs refl), refl, refl)
