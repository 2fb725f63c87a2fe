-- ===== src/Tgen/Choose.antt =====
-- `rand_instr` and the main program of scripts/tgen.py. The mnemonics and the weights of the bias
-- file are arguments.
use idli_v.Prelude.{
  ℕ, zero, suc, ◌+◌, ◌-◌, ◌*◌, ◌^◌, Bool, true, false, not, ◌&&◌, ◌||◌, List, [], ◌∷◌, ◌++◌, map,
  Option, none, some, Result, ok, err, exception, key_error, of_option, bit_or, leb, if◌then◌else◌,
  ◌>>=◌,
}
use idli_v.Isa.Mnem.{Mnem}
use idli_v.Isa.Instr.{Cond, cond_t, Instruction, no_ops, is_cmpx, cond_bit}
use idli_v.Sim.State.{Sim, init}
use idli_v.Bench.{Board}
use idli_v.Tgen.{Random, State, Line, instr_line, int_line, org_line, new_state, check_space}
use idli_v.Tgen.Make.{emit, rand_init, end_test}
use idli_v.Tgen.Pick.{op_names, pick_ops}

abbrev pub is_cex : Mnem → Bool
is_cex Mnem.cex = true
is_cex _ = false

-- `mnem in SET_COND`
abbrev pub sets_cond : Mnem → Bool
sets_cond k = is_cmpx k || is_cex k

-- `REDIRECTS`
abbrev pub redirects : List Mnem
redirects = Mnem.b ∷ Mnem.j ∷ Mnem.bl ∷ Mnem.jl ∷ []

abbrev pub pending : List Cond → Bool
pending [] = false
pending (x ∷ conds) = true

-- `cex_mask |= int(x == 't') << i`, from follower `i` on.
unfoldable pub set_bits : ℕ → List Cond → ℕ → ℕ
set_bits i [] mask = mask
set_bits i (x ∷ conds) mask = set_bits (i + 1) conds (bit_or mask (cond_bit x * 2 ^ i))

module _ {R : Type 0} (random : Random R) (mnems : List Mnem) (weights : List ℕ) where
  abbrev pub pick_mnem : State R → Mnem × State R
  pick_mnem t = let (k, r) = random.choices mnems weights t.source in (k, record t { source = r })

  abbrev pub pick_redirect : State R → Mnem × State R
  pick_redirect t = let (k, r) = random.choice redirects t.source in (k, record t { source = r })

  -- The loop that chooses the mnemonic, on fuel for the number of choices.
  unfoldable pub choose_mnem : ℕ → ℕ → State R → Result (Mnem × State R)
  choose_mnem zero pc t = err exception
  choose_mnem (suc fuel) pc t =
      let x = pick_mnem t in
      let again = choose_mnem fuel pc (x.1) in
      if pending t.cond && sets_cond (x.0)
      then again
      else if leb (0xffff - 3) pc
      then ok (pick_redirect (x.1))
      else if not (check_space t.used_addrs pc 16)
      then ok (pick_redirect (x.1))
      else ok x

  -- The next condition for the instruction.
  abbrev pub with_cond : Instruction → State R → Instruction × State R
  with_cond i t = elim t.cond [
    | [] ↦ (i, t)
    | x ∷ conds ↦ (record i { cond = some x }, record t { cond = conds })
  ]

  -- The conditions that CEX sets, and its mask.
  abbrev pub with_mask : ℕ → Instruction → State R → Instruction × State R
  with_mask m i t =
      let (conds, r) = random.choices_tf m t.source in
      (
        record i { cex_mask = some (set_bits 0 conds (2 ^ m)) },
        record t { cond = conds; source = r },
      )

  abbrev pub set_cond : Instruction → State R → Result (Instruction × State R)
  set_cond i t =
      if sets_cond i.mnem
      then (if is_cex i.mnem
          then (of_option key_error i.ops.m >>= λ m. ok (with_mask m i t))
          else ok (i, record t { cond = cond_t ∷ [] }))
      else ok (i, t)

  -- What follows the choice of the operands.
  abbrev pub conclude : Instruction → State R → Result (Instruction × State R)
  conclude i t = let (i', t') = with_cond i t in set_cond i' t'

  -- `rand_instr`, for the program counter and the registers of the simulator.
  unfoldable pub rand_instr : ℕ → ℕ → List (Option ℕ) → State R → Result (Instruction × State R)
  unfolding choose_mnem pick_ops op_names set_bits
  rand_instr fuel pc regs t = do
    x ← choose_mnem fuel pc t
    let t' : State R = record x.1 { count = (x.1).count - 1 }
    y ← pick_ops pc regs random fuel (op_names (x.0)) (x.0) no_ops t'
    let i : Instruction = record { mnem = y.0; ops = y.1; cond = none; cex_mask = none }
    conclude i (y.2)

  abbrev pub add_lines : List Line → Sim (State R) → Sim (State R)
  add_lines lines s = record s { env = record s.env { instrs = s.env.instrs ++ lines } }

  -- The loop over `range(args.num_instr)`.
  unfoldable pub rand_loop : ℕ → ℕ → Sim (State R) → Result (Sim (State R))
  unfolding rand_instr
  rand_loop fuel zero s = ok s
  rand_loop fuel (suc left) s = do
    x ← rand_instr fuel s.pc s.regs s.env
    s' ← emit random (x.0) (add_lines (instr_line (x.0) ∷ []) (record s { env = x.1 }))
    rand_loop fuel left s'

  -- The values that the test loads, each at its address.
  unfoldable pub ld_lines : Board ℕ → List Line
  ld_lines [] = []
  ld_lines ((addr, value) ∷ rest) = org_line addr ∷ int_line value ∷ ld_lines rest

  -- The main program, up to the writing of the files.
  unfoldable pub generate : ℕ → ℕ → R → Result (Sim (State R))
  unfolding rand_loop ld_lines
  generate fuel num_instr r = do
    first ← rand_init random (init (new_state r))
    s ← rand_loop fuel num_instr (add_lines (map instr_line (first.0)) (first.1))
    last ← end_test random s
    let all_lines : List Line = map instr_line (last.0) ++ ld_lines (last.1).env.ld_mem
    ok (add_lines all_lines (last.1))
