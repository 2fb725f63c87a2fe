-- ===== src/Tgen/Final/Indexed.antt =====
-- The offset of an LD or ST that scripts/tgen.py makes.
use idli_v.Prelude.{
  ℕ, ◌+◌, ◌%◌, ◌^◌, ◌<◌, ◌≡◌, refl, arith, true, false, not, ◌||◌, List, [], ◌∷◌, Option, some, pos,
  ok, inl, inr, Bool-cases, ◌==◌, ==→eq,
}
use idli_v.Isa.Mnem.{Mnem}
use idli_v.Isa.Encoding.{Operand, count, pattern}
use idli_v.Isa.Instr.{Ops, sp}
use idli_v.Tgen.{Random, State, rand_imm, check_space}
use idli_v.Tgen.Pick.{
  is_redirect, mem_op, is_op, is_addr, reg_value, pc_hit, Draft, pick_imm, pick_reg, base_of,
  check_target, check_block, check_indexed,
}
use idli_v.Tgen.Operands.{Progress, InRange, Progress-next, c-Sets, sp-Sets}
use idli_v.Tgen.Operands.Plain.{small_reg}
use idli_v.Tgen.Target.{reach, value_of, Chosen, addresses}
use idli_v.Tgen.Final.{
  AreKnown, imm_none, HasRoom, imm_outcome, pick_reg-steps, draft, check_target-no, reg_value-known,
}

module _ {R : Type 0} (random : Random R) (fuel pc : ℕ) (regs : List (Option ℕ))
    (in_range : InRange random) (known : AreKnown regs) where
  -- LD and ST, with the base in B: an immediate, or a register for which the address is free.
  module _ (k : Mnem) (base : ℕ) (o : Ops) (t : State R) (g : is_redirect k ≡ false)
      (addressed : is_addr k Operand.c ≡ true) (no_block : is_op Operand.b (mem_op k) ≡ false)
      (index : is_op Operand.c (mem_op k) ≡ true) (adr : addresses k ≡ true)
      (base_small : base < 2 ^ 16) (base_reg : reg_value regs o.b ≡ ok base)
      (base_is : (c : Option ℕ) → base_of pc regs k (record o { c = c }) ≡ ok (pos base))
      (reach_is : (o' : Ops) (v : ℕ)
        → reg_value regs o'.b ≡ ok base
        → value_of pc regs o' ≡ ok v
        → reach pc regs k o' ≡ ok ((base + v) % 2 ^ 16, 1))
      (w : count Operand.c (pattern k) ≡ 4)
      (h : HasRoom random fuel pc regs in_range known t.used_addrs)
      (p : Progress k (Operand.c ∷ []) o) where
    abbrev unforced : Draft
    unforced = draft random fuel pc regs in_range known Operand.c k o t addressed (pos base)

    indexed_imm :
        check_indexed pc regs t.used_addrs true Operand.c unforced
          ≡ ok (record {
            mnem = k;
            ops = record o { c = some sp };
            is_imm = true;
            addr_base = pos base;
          })
        → Chosen pc regs t (pick_reg pc regs random fuel Operand.c k o t)
    unfolding check_target check_block
    indexed_imm runs =
        imm_outcome random fuel pc regs in_range known Operand.c k k o (record o { c = some sp }) t
          base (pos base) unforced unforced addressed h base_small (base_is _)
          (check_target-no random fuel pc regs in_range known t.used_addrs Operand.c unforced g)
          (rw no_block refl) runs
          (λ v small.
            Progress-next k Operand.c [] o _ refl w p (sp-Sets sp v o refl (omega arith) small))
          adr (λ v. reach_is _ v base_reg refl)

    indexed_reg :
        (v : ℕ)
        → ((rand_imm random 0 15 t).0 == sp) ≡ false
        → reg_value regs (some (rand_imm random 0 15 t).0) ≡ ok v
        → (not (check_space t.used_addrs ((base + v) % 2 ^ 16) 1) || (base + v) % 2 ^ 16 == pc)
          ≡ false
        → Chosen pc regs t (pick_reg pc regs random fuel Operand.c k o t)
    unfolding check_target check_block check_indexed pick_imm pc_hit
    indexed_reg v e r f =
        let x = rand_imm random 0 15 t in
        let no_imm = imm_none o.c o.imm (p.fits Operand.c) p.imm in
        record {
          mnem = k;
          ops = record o { c = some (x.0) };
          state = x.1;
          runs =
              pick_reg-steps random fuel pc regs in_range known Operand.c k o t addressed (pos base)
                unforced unforced unforced _ (base_is _)
                (check_target-no random fuel pc regs in_range known t.used_addrs Operand.c unforced
                  g)
                (rw no_block refl) (rw (index, e, base_reg, r, f) refl) (rw e refl);
          progress =
              Progress-next k Operand.c [] o _ refl w p
                (c-Sets (x.0) o e (small_reg random fuel pc regs in_range t));
          kept = (refl, refl);
          reaches = rw adr (record {
            first = (base + v) % 2 ^ 16;
            words = 1;
            is = reach_is (record o { c = some (x.0) }) v base_reg (rw no_imm r);
            free = rw (no_imm, g) (ground (arith, f));
            apart = λ z. ground (arith, f);
          });
        }

    pub indexed_last : Chosen pc regs t (pick_reg pc regs random fuel Operand.c k o t)
    unfolding check_indexed
    indexed_last =
        let x = rand_imm random 0 15 t in
        elim (Bool-cases ((x.0) == sp)) [
          | inl e ↦ indexed_imm (rw (index, e, ==→eq (x.0) sp e) refl)
          | inr e ↦
              let (v, r, small) =
                reg_value-known random fuel pc regs in_range known (x.0)
                  (small_reg random fuel pc regs in_range t) in
              elim (Bool-cases (
                not (check_space t.used_addrs ((base + v) % 2 ^ 16) 1)
                || (base + v) % 2 ^ 16 == pc)) [
                  | inl f ↦ indexed_imm (rw (index, e, base_reg, r, f) refl)
                  | inr f ↦ indexed_reg v e r f
                ]
        ]
