-- ===== src/Tgen/Final/Block.antt =====
-- The base of the other memory operations that scripts/tgen.py makes.
use idli_v.Prelude.{
  ℕ, ◌+◌, ◌%◌, ◌^◌, ◌<◌, ◌≡◌, refl, arith, Bool, true, false, not, ◌||◌, List, [], Option, none,
  some, ℤ, pos, ◌+ℤ◌, low16, ok, inl, inr, Bool-cases, if◌then◌else◌,
}
use idli_v.Isa.Mnem.{Mnem}
use idli_v.Isa.Encoding.{Operand}
use idli_v.Isa.Instr.{Ops, int}
use idli_v.Tgen.{Random, State, rand_imm, check_space}
use idli_v.Tgen.Pick.{
  is_redirect, mem_op, is_op, is_addr, num_regs, reg_value, pc_hit, pick_imm, pick_reg, base_of,
  check_block, check_indexed, indexed_ops, indexed,
}
use idli_v.Tgen.Operands.{Progress, InRange}
use idli_v.Tgen.Operands.Plain.{small_reg}
use idli_v.Tgen.Target.{reach, Chosen, addresses}
use idli_v.Tgen.Final.{
  AreKnown, HasRoom, imm_outcome, pick_reg-steps, draft, check_target-no, check_indexed-no,
  reg_value-known,
}

module _ {R : Type 0} (random : Random R) (fuel pc : ℕ) (regs : List (Option ℕ))
    (in_range : InRange random) (known : AreKnown regs) where
  abbrev pub with_b : Ops → State R → Ops
  with_b o t = record o { b = some (rand_imm random 0 15 t).0 }

  -- A memory operation with its address in B, which becomes LD or ST with an immediate unless the
  -- words that it touches are free.
  module _ (k k' : Mnem) (base words : ℕ) (step : ℤ) (o : Ops) (t : State R)
      (g : is_redirect k ≡ false) (addressed : is_addr k Operand.b ≡ true)
      (block : is_op Operand.b (mem_op k) ≡ true) (no_index : is_op Operand.c (mem_op k) ≡ false)
      (adr : addresses k ≡ true) (adr' : addresses k' ≡ true) (becomes : indexed k ≡ k')
      (base_is : base_of pc regs k (with_b o t) ≡ ok step)
      (words_is : num_regs k (with_b o t) ≡ ok words) (base_small : base < 2 ^ 16)
      (base_reg : reg_value regs (indexed_ops k (with_b o t)).b ≡ ok base)
      (reach_imm : (v : ℕ)
        → reach pc regs k' (record (indexed_ops k (with_b o t)) { imm = some (int (pos v)) })
          ≡ ok ((base + v) % 2 ^ 16, 1))
      (reach_reg : (v : ℕ)
        → reg_value regs (some (rand_imm random 0 15 t).0) ≡ ok v
        → reach pc regs k (with_b o t) ≡ ok (low16 (pos v +ℤ step), words))
      (h : HasRoom random fuel pc regs in_range known t.used_addrs) (no_imm : o.imm ≡ none)
      (p : Progress k [] (with_b o t))
      (p' : (v : ℕ)
        → v < 2 ^ 16
        → Progress k' [] (record (indexed_ops k (with_b o t)) { imm = some (int (pos v)) })) where
    block_test :
        (v : ℕ) (b : Bool)
        → reg_value regs (some (rand_imm random 0 15 t).0) ≡ ok v
        → (not (check_space t.used_addrs (low16 (pos v +ℤ step)) words)
            || pc_hit pc (low16 (pos v +ℤ step)) words)
          ≡ b
        → check_block pc regs t.used_addrs true Operand.b
            (draft random fuel pc regs in_range known Operand.b k o t addressed step)
          ≡ (if b
              then ok (record {
                mnem = k';
                ops = indexed_ops k (with_b o t);
                is_imm = true;
                addr_base = pos base;
              })
              else ok (draft random fuel pc regs in_range known Operand.b k o t addressed step))
    unfolding check_block
    block_test v true r f = rw (block, r, words_is, f, base_reg, becomes) refl
    block_test v false r f = rw (block, r, words_is, f) refl

    pub block_last : Chosen pc regs t (pick_reg pc regs random fuel Operand.b k o t)
    unfolding check_indexed pick_imm
    block_last =
        let x = rand_imm random 0 15 t in
        let d = draft random fuel pc regs in_range known Operand.b k o t addressed step in
        let (v, r, small) =
          reg_value-known random fuel pc regs in_range known (x.0)
            (small_reg random fuel pc regs in_range t) in
        let target = low16 (pos v +ℤ step) in
        elim (Bool-cases (not (check_space t.used_addrs target words) || pc_hit pc target words)) [
          | inl f ↦
              imm_outcome random fuel pc regs in_range known Operand.b k k' o
                (indexed_ops k (with_b o t)) t base step d
                (record {
                  mnem = k';
                  ops = indexed_ops k (with_b o t);
                  is_imm = true;
                  addr_base = pos base;
                })
                addressed h base_small base_is
                (check_target-no random fuel pc regs in_range known t.used_addrs Operand.b d g)
                (block_test v true r f)
                (check_indexed-no random fuel pc regs in_range known t.used_addrs Operand.b _ refl)
                p' adr' reach_imm
          | inr f ↦ record {
            mnem = k;
            ops = with_b o t;
            state = x.1;
            runs =
                pick_reg-steps random fuel pc regs in_range known Operand.b k o t addressed step d d
                  d _ base_is
                  (check_target-no random fuel pc regs in_range known t.used_addrs Operand.b d g)
                  (block_test v false r f) (rw no_index refl) refl;
            progress = p;
            kept = (refl, refl);
            reaches = rw adr (record {
              first = target;
              words = words;
              is = reach_reg v r;
              free = rw (no_imm, g) (ground (arith, f));
              apart = λ z. ground (arith, f);
            });
          }
        ]
