-- ===== src/Tgen/Init.antt =====
-- The beginning of a test of scripts/tgen.py.
use idli_v.Prelude.{
  ℕ, zero, suc, ◌+◌, ◌*◌, ◌%◌, ◌^◌, ◌≤◌, ◌≡◌, refl, sym, arith, List, [], ◌∷◌, ◌++◌, some, ok,
  get_elem?-set_self, subst,
}
use idli_v.Isa.Instr.{Instruction}
use idli_v.Sim.State.{Sim, init}
use idli_v.Tgen.{Random, State, new_state, rand_imm}
use idli_v.Tgen.Make.{load_imm, clear_pred, init_regs, rand_init}
use idli_v.Tgen.Load.{AllKnown, AllKnown-set, Ready, emit-load_imm, emit-clear_pred}

module _ {R : Type 0} (random : Random R) where
  -- What the loads of the registers from `r` on do.
  record Inited (left r : ℕ) (s s' : Sim (State R)) : Type 0 where
    is : List Instruction
    runs : init_regs random left r s ≡ ok (is, s')
    ready : Ready random s'
    known : AllKnown 16 s'.regs
    next : s'.pc ≡ s.pc + 2 * left

  init_regs-Inited :
      (left r : ℕ) (s : Sim (State R))
      → 1 ≤ r
      → r + left ≡ 16
      → Ready random s
      → AllKnown r s.regs
      → (s' : Sim (State R)) × Inited left r s s'
  unfolding init_regs
  init_regs-Inited zero r s lo sum h k =
      let full : r ≡ 16 = omega (arith, sum) in
      (
        s,
        record {
          is = [];
          runs = refl;
          ready = h;
          known = subst (λ (n : ℕ). AllKnown n s.regs) full k;
          next = omega arith;
        },
      )
  init_regs-Inited (suc left) r s lo sum h k =
      let x = rand_imm random 0 0xffff s.env in
      let s0 = record s { env = x.1 } in
      let h0 : Ready random s0 = record {
        no_cond = h.no_cond;
        no_count = h.no_count;
        zero_reg = h.zero_reg;
        below = h.below;
        sixteen = h.sixteen;
      } in
      let (s1, l) = emit-load_imm random r (x.0) s0 lo (omega (arith, sum)) h0 in
      let set_known = AllKnown-set r r (x.0 % 2 ^ 16) s.regs (omega arith) k in
      let here =
        get_elem?-set_self s.regs r (some (x.0 % 2 ^ 16)) (omega (arith, h.sixteen, sum)) in
      let known : AllKnown (suc r) s1.regs =
        subst (AllKnown (suc r)) (sym l.regs) ((x.0 % 2 ^ 16, here, omega arith), set_known) in
      let count : r + 1 ≡ suc r = omega arith in
      let (s2, rest) =
        init_regs-Inited left (r + 1) s1 (omega arith) (omega (arith, sum)) l.ready
          (subst (λ (n : ℕ). AllKnown n s1.regs) (sym count) known) in
      (
        s2,
        record {
          is = load_imm r (x.0) ∷ rest.is;
          runs = rw (l.runs, rest.runs) refl;
          ready = rest.ready;
          known = rest.known;
          next = omega (arith, rest.next, l.next);
        },
      )

  -- Whatever the choices are, the beginning of a test is made without an error: all registers then
  -- hold 16-bit values, which the instructions that follow can compute with, and the program counter
  -- is behind the 31 words of the fifteen loads and of PUTP.
  pub rand_init-AllKnown :
      (r : R)
      → (is : List Instruction) × ((s : Sim (State R)) × (rand_init random (init (new_state r))
            ≡ ok (is, s))
          × AllKnown 16 s.regs
          × (s.pc ≡ 31))
  unfolding rand_init init
  rand_init-AllKnown r =
      let s = init (new_state r) in
      let ready : Ready random s = record {
        no_cond = refl;
        no_count = refl;
        zero_reg = refl;
        below = tt;
        sixteen = refl;
      } in
      let (s1, i) = init_regs-Inited 15 1 s (omega arith) refl ready ((0, refl, omega arith), tt) in
      let (s2, runs, regs, pc) = emit-clear_pred random s1 i.ready in
      (
        i.is ++ clear_pred ∷ [],
        (
          s2,
          rw (i.runs, runs) refl,
          subst (AllKnown 16) (sym regs) i.known,
          omega (arith, pc, i.next),
        ),
      )
