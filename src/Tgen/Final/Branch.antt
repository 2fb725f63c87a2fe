-- ===== src/Tgen/Final/Branch.antt =====
-- The register or the immediate of a branch that scripts/tgen.py makes.
use idli_v.Prelude.{
  ℕ, ◌+◌, ◌%◌, ◌^◌, ◌<◌, ◌≡◌, refl, arith, true, false, not, ◌||◌, List, [], ◌∷◌, Option, none,
  some, pos, ok, inl, inr, Bool-cases, ◌==◌, ==→eq, if◌then◌else◌,
}
use idli_v.Isa.Mnem.{Mnem}
use idli_v.Isa.Encoding.{Operand, count, pattern}
use idli_v.Isa.Instr.{Ops, int, sp}
use idli_v.Tgen.{Random, State, rand_imm, check_space}
use idli_v.Tgen.Pick.{
  is_redirect, mem_op, is_op, is_addr, is_relative, reg_value, pc_hit, Draft, pick_imm, pick_reg,
  base_of, check_target, check_block, check_indexed,
}
use idli_v.Tgen.Operands.{Progress, InRange, Progress-next, c-Sets, sp-Sets}
use idli_v.Tgen.Operands.Plain.{small_reg}
use idli_v.Tgen.Target.{reach, Chosen, addresses}
use idli_v.Tgen.Final.{
  AreKnown, imm_none, HasRoom, imm_outcome, pick_reg-steps, draft, reg_value-known,
}

module _ {R : Type 0} (random : Random R) (fuel pc : ℕ) (regs : List (Option ℕ))
    (in_range : InRange random) (known : AreKnown regs) where
  -- A branch: an immediate, or a register whose target is free. The parameters are what the code
  -- tests of the mnemonic.
  module _ (k : Mnem) (base near : ℕ) (o : Ops) (t : State R) (g : is_redirect k ≡ true)
      (addressed : is_addr k Operand.c ≡ true) (no_block : is_op Operand.b (mem_op k) ≡ false)
      (no_index : is_op Operand.c (mem_op k) ≡ false) (adr : addresses k ≡ true)
      (near_is : (if is_relative k then pc else 0) ≡ near) (base_small : base < 2 ^ 16)
      (base_is : (o' : Ops) → base_of pc regs k o' ≡ ok (pos base))
      (reach_imm : (o' : Ops) (v : ℕ)
        → reach pc regs k (record o' { imm = some (int (pos v)) }) ≡ ok ((base + v) % 2 ^ 16, 1))
      (reach_reg : (o' : Ops) (v : ℕ)
        → o'.imm ≡ none
        → reg_value regs o'.c ≡ ok v
        → reach pc regs k o' ≡ ok ((near + v) % 2 ^ 16, 1))
      (w : count Operand.c (pattern k) ≡ 4)
      (h : HasRoom random fuel pc regs in_range known t.used_addrs)
      (p : Progress k (Operand.c ∷ []) o) where
    abbrev at_sp : Draft
    at_sp = record { mnem = k; ops = record o { c = some sp }; is_imm = true; addr_base = pos base }

    -- What follows once C is SP.
    branch_imm :
        check_target pc regs t.used_addrs Operand.c
            (draft random fuel pc regs in_range known Operand.c k o t addressed (pos base))
          ≡ ok at_sp
        → Chosen pc regs t (pick_reg pc regs random fuel Operand.c k o t)
    unfolding check_block check_indexed
    branch_imm runs =
        imm_outcome random fuel pc regs in_range known Operand.c k k o (record o { c = some sp }) t
          base (pos base) at_sp at_sp addressed h base_small (base_is _) runs (rw no_block refl)
          (rw no_index refl)
          (λ v small.
            Progress-next k Operand.c [] o _ refl w p (sp-Sets sp v o refl (omega arith) small))
          adr (reach_imm (record o { c = some sp }))

    branch_reg :
        (v : ℕ)
        → ((rand_imm random 0 15 t).0 == sp) ≡ false
        → reg_value regs (some (rand_imm random 0 15 t).0) ≡ ok v
        → (not (check_space t.used_addrs ((near + v) % 2 ^ 16) 16) || (near + v) % 2 ^ 16 == pc)
          ≡ false
        → Chosen pc regs t (pick_reg pc regs random fuel Operand.c k o t)
    unfolding check_target check_block check_indexed pick_imm pc_hit
    branch_reg v e r f =
        let x = rand_imm random 0 15 t in
        let d = draft random fuel pc regs in_range known Operand.c k o t addressed (pos base) in
        let no_imm = imm_none o.c o.imm (p.fits Operand.c) p.imm in
        record {
          mnem = k;
          ops = record o { c = some (x.0) };
          state = x.1;
          runs =
              pick_reg-steps random fuel pc regs in_range known Operand.c k o t addressed (pos base)
                d d d _ (base_is _) (rw (e, g, near_is, r, f) refl) (rw no_block refl)
                (rw no_index refl) (rw e refl);
          progress =
              Progress-next k Operand.c [] o _ refl w p
                (c-Sets (x.0) o e (small_reg random fuel pc regs in_range t));
          kept = (refl, refl);
          reaches = rw adr (record {
            first = (near + v) % 2 ^ 16;
            words = 1;
            is = reach_reg (record o { c = some (x.0) }) v no_imm r;
            free = rw (no_imm, g) (ground (arith, f));
            apart = λ z. ground (arith, f);
          });
        }

    pub branch_last : Chosen pc regs t (pick_reg pc regs random fuel Operand.c k o t)
    unfolding check_target
    branch_last =
        let x = rand_imm random 0 15 t in
        elim (Bool-cases ((x.0) == sp)) [
          | inl e ↦ branch_imm (rw (e, ==→eq (x.0) sp e) refl)
          | inr e ↦
              let (v, r, small) =
                reg_value-known random fuel pc regs in_range known (x.0)
                  (small_reg random fuel pc regs in_range t) in
              elim (Bool-cases (
                not (check_space t.used_addrs ((near + v) % 2 ^ 16) 16)
                || (near + v) % 2 ^ 16 == pc)) [
                  | inl f ↦ branch_imm (rw (e, g, near_is, r, f) refl)
                  | inr f ↦ branch_reg v e r f
                ]
        ]
