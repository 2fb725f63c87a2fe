-- ===== src/Tgen/Make.antt =====
-- The addresses of scripts/tgen.py, and the beginning and the end of the tests that it makes.
use idli_v.Prelude.{
  ℕ, zero, suc, ◌+◌, ◌-◌, true, not, List, [], ◌∷◌, ◌++◌, Option, none, some, ℤ, pos, ◌+ℤ◌, low16,
  Result, ok, err, assertion, exception, guard, ◌>>=◌, if◌then◌else◌,
}
use idli_v.Isa.Mnem.{Mnem, codes}
use idli_v.Isa.Instr.{Cond, Instruction, Ops, no_ops, instr, int, sp, zr, size}
use idli_v.Sim.State.{Sim}
use idli_v.Sim.Tick.{tick}
use idli_v.Tgen.{Random, State, has, check_space, rand_imm, callback}

abbrev pub plain : Mnem → Ops → Option Cond → Instruction
plain k o c = record { mnem = k; ops = o; cond = c; cex_mask = none }

-- The instructions of the beginning and the end of a test.
abbrev pub load_imm : ℕ → ℕ → Instruction
load_imm r v =
    plain Mnem.add
      (record no_ops { a = some r; b = some zr; c = some sp; imm = some (int (pos v)) }) none

abbrev pub clear_pred : Instruction
clear_pred = plain Mnem.putp (record no_ops { c = some 0 }) none

abbrev pub nop : Option Cond → Instruction
nop c = plain Mnem.add (record no_ops { a = some 0; b = some 0; c = some 0 }) c

abbrev pub send : ℕ → Instruction
send v = plain Mnem.utx (record no_ops { c = some sp; imm = some (int (pos v)) }) none

abbrev pub send_code : Instruction
send_code = plain Mnem.utx (record no_ops { c = some 0 }) none

abbrev pub loop_here : Instruction
loop_here = plain Mnem.b (record no_ops { c = some sp; imm = some (int (pos 0xffff)) }) none

-- `alloc_instr`: the words of the instruction from `addr` on.
unfoldable pub alloc : ℕ → ℕ → List ℕ → Result (List ℕ)
alloc zero addr used = ok used
alloc (suc left) addr used =
    guard (not (has addr used)) assertion >>= λ u. alloc left (addr + 1) (addr ∷ used)

module _ {R : Type 0} (random : Random R) where
  -- `rand_addr`, on fuel for the number of choices.
  unfoldable pub rand_addr : ℕ → ℤ → State R → Result (ℕ × State R)
  rand_addr zero offset t = err exception
  rand_addr (suc fuel) offset t =
      let x = rand_imm random 0 0xffff t in
      let rest = rand_addr fuel offset (x.1) in
      if check_space (x.1).used_addrs (low16 (pos (x.0) +ℤ offset)) 16 then ok x else rest

  abbrev pub with_used : List ℕ → Sim (State R) → Sim (State R)
  with_used used s = record s { env = record s.env { used_addrs = used; ticks = s.ticks } }

  -- `alloc_instr`, and a tick of the simulator with the instruction.
  unfoldable pub emit : Instruction → Sim (State R) → Result (Sim (State R))
  unfolding alloc
  emit i s = alloc (size i) s.pc s.env.used_addrs >>= λ used.
      tick (callback random) (some (instr i)) (with_used used s) >>= λ r. ok (r.1)

  -- The loop of `rand_init` over the registers from `r` on.
  unfoldable pub init_regs : ℕ → ℕ → Sim (State R) → Result (List Instruction × Sim (State R))
  unfolding emit
  init_regs zero r s = ok ([], s)
  init_regs (suc left) r s =
      let x = rand_imm random 0 0xffff s.env in
      emit (load_imm r (x.0)) (record s { env = x.1 }) >>= λ s'.
      init_regs left (r + 1) s' >>= λ rest. ok (load_imm r (x.0) ∷ rest.0, rest.1)

  -- `rand_init`
  unfoldable pub rand_init : Sim (State R) → Result (List Instruction × Sim (State R))
  unfolding init_regs
  rand_init s = init_regs 15 1 s >>= λ first.
      emit clear_pred (first.1) >>= λ s'. ok (first.0 ++ clear_pred ∷ [], s')

  -- `state.count -= 1` where it is not zero.
  abbrev count_down : Sim (State R) → Sim (State R)
  count_down s = record s { env = record s.env { count = s.env.count - 1 } }

  -- `for cond in state.cond`
  unfoldable pub pad_conds : List Cond → Sim (State R) → Result (List Instruction × Sim (State R))
  pad_conds [] s = ok ([], s)
  pad_conds (x ∷ conds) s = emit (nop (some x)) s >>= λ s'.
      pad_conds conds (count_down s') >>= λ rest. ok (nop (some x) ∷ rest.0, rest.1)

  -- `while state.count > 0`, which takes as many rounds as the count says.
  unfoldable pub pad_count : ℕ → Sim (State R) → Result (List Instruction × Sim (State R))
  pad_count zero s = ok ([], s)
  pad_count (suc left) s = emit (nop none) s >>= λ s'.
      pad_count left (count_down s') >>= λ rest. ok (nop none ∷ rest.0, rest.1)

  unfoldable pub send_all : List ℕ → Sim (State R) → Result (List Instruction × Sim (State R))
  send_all [] s = ok ([], s)
  send_all (v ∷ vs) s =
      emit (send v) s >>= λ s'. send_all vs s' >>= λ rest. ok (send v ∷ rest.0, rest.1)

  -- `end_test`; the branch to itself is given an address, but is not run.
  unfoldable pub end_test : Sim (State R) → Result (List Instruction × Sim (State R))
  unfolding emit pad_conds pad_count send_all
  end_test s = do
    let s0 : Sim (State R) = record s { env = record s.env { finished = true } }
    c ← pad_conds s0.env.cond s0
    n ← pad_count (c.1).env.count (c.1)
    m ← send_all (codes "@@END@@") (n.1)
    s1 ← emit send_code (m.1)
    used ← alloc (size loop_here) s1.pc s1.env.used_addrs
    ok (c.0 ++ (n.0 ++ (m.0 ++ send_code ∷ loop_here ∷ [])), with_used used s1)
