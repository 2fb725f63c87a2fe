-- ===== src/Tgen/Whole/Blocks.antt =====
-- LDM and STM of scripts/tgen.py.
use idli_v.Prelude.{
  ℕ, ◌+◌, ◌-◌, ◌%◌, ◌^◌, ◌≡◌, refl, ◌∙◌, true, false, List, [], ◌∷◌, Option, none, some, pos, ◌+ℤ◌,
  low16, ok,
}
use idli_v.Isa.Mnem.{Mnem, has_char}
use idli_v.Isa.Encoding.{Operand, count, pattern}
use idli_v.Isa.Instr.{Ops, int, no_ops, sp}
use idli_v.Tgen.{Random, State, rand_imm}
use idli_v.Tgen.Pick.{
  is_redirect, mem_op, is_addr, indexed, is_ldstm, num_regs, is_op, op_names, pick_ops, base_of,
  reg_value,
}
use idli_v.Tgen.Operands.{Progress-next, InRange, start, set_op-Sets}
use idli_v.Tgen.Operands.Plain.{small_reg}
use idli_v.Tgen.Target.{reach, Chosen, addresses}
use idli_v.Tgen.Final.{AreKnown, HasRoom, reg_value-known, imm_none}
use idli_v.Tgen.Final.Block.{block_last}
use idli_v.Tgen.Whole.Widths.{Fits-none, Fits-some, whole_Progress, block_as}
use idli_v.Tgen.Whole.Rounds.{last, next, still}

module _ {R : Type 0} (random : Random R) (fuel pc : ℕ) (regs : List (Option ℕ))
    (in_range : InRange random) (known : AreKnown regs) where
  module _ (t : State R) (h : HasRoom random fuel pc regs in_range known t.used_addrs) where
    -- A memory operation on registers from R to S.
    blocks :
        (k k' : Mnem)
        → op_names k ≡ Operand.r ∷ Operand.s ∷ Operand.b ∷ []
        → is_redirect k ≡ false
        → is_addr k Operand.r ≡ false
        → is_addr k Operand.s ≡ false
        → is_addr k Operand.b ≡ true
        → is_op Operand.b (mem_op k) ≡ true
        → is_op Operand.c (mem_op k) ≡ false
        → is_op Operand.c (mem_op k') ≡ true
        → addresses k ≡ true
        → addresses k' ≡ true
        → indexed k ≡ k'
        → is_ldstm k ≡ true
        → ((o : Ops) → base_of pc regs k o ≡ ok (pos 0))
        → ((o : Ops) (v w : ℕ)
            → o.imm ≡ some (int (pos v))
            → reg_value regs o.b ≡ ok w
            → reach pc regs k' o ≡ ok ((w + v) % 2 ^ 16, 1))
        → ((o : Ops) (v n : ℕ)
            → reg_value regs o.b ≡ ok v
            → num_regs k o ≡ ok n
            → reach pc regs k o ≡ ok (low16 (pos v +ℤ pos 0), n))
        → ((l : Operand) → count l (pattern k) ≡ count l (pattern Mnem.ldm))
        → Chosen pc regs t (pick_ops pc regs random fuel (op_names k) k no_ops t)
    unfolding pattern
    blocks k k' names g r0 s0 addressed block no_index index adr adr' becomes many base_is reach_imm
          reach_reg widths =
        rw names (
          next random fuel pc regs in_range known Operand.r (Operand.s ∷ Operand.b ∷ []) k no_ops t
            g r0 refl (widths Operand.r) (rw names at (start k))
            λ o0 t0 p0 kept0.
              next random fuel pc regs in_range known Operand.s (Operand.b ∷ []) k o0 t0 g s0 refl
                (widths Operand.s) p0
                λ o t' p kept1.
                  let kept = kept1.0 ∙ kept0.0 in
                  let x = rand_imm random 0 15 t' in
                  let fits = λ (l : Operand). block_as k Operand.b o p widths l in
                  let (r, r_is, r_small) = Fits-some o.r (fits Operand.r) in
                  let (s, s_is, s_small) = Fits-some o.s (fits Operand.s) in
                  let (base, e, small) =
                    reg_value-known random fuel pc regs in_range known s s_small in
                  let no_imm = imm_none o.c o.imm (Fits-none o.c (fits Operand.c)) p.imm in
                  let o' : Ops = record o { b = some (x.0) } in
                  let n = (s + (16 - r % 16)) % 16 + 1 in
                  let o2 : Ops = record o { r = none; s = none; a = o.r; b = o.s; c = some sp } in
                  let nums : num_regs k o' ≡ ok n = rw (many, r_is, s_is) refl in
                  last random fuel pc regs in_range known Operand.b k o t' (
                    block_last random fuel pc regs in_range known k k' base n (pos 0) o t' g
                      addressed block no_index adr adr' becomes (base_is o') nums small
                      (rw (many, s_is) e)
                      (λ v. rw many (
                        reach_imm (record o2 { imm = some (int (pos v)) }) v base refl (rw s_is e)))
                      (λ v r. reach_reg o' v n r nums)
                      (still random fuel pc regs in_range known t t' h kept) no_imm
                      (Progress-next k Operand.b [] o o' refl (widths Operand.b) p (
                        set_op-Sets Operand.b (x.0) o refl
                          (small_reg random fuel pc regs in_range t')))
                      (λ v fits16. rw many (
                        whole_Progress k' o2 v index
                          (
                            tt,
                            tt,
                            fits Operand.r,
                            fits Operand.s,
                            fits Operand.n,
                            fits Operand.m,
                            fits Operand.j,
                            refl,
                          )
                          fits16))))

    pub block_ops :
        (k : Mnem)
        → is_ldstm k ≡ true
        → Chosen pc regs t (pick_ops pc regs random fuel (op_names k) k no_ops t)
    unfolding base_of reach op_names has_char
    block_ops Mnem.ldm g =
        blocks Mnem.ldm Mnem.ld refl refl refl refl refl refl refl refl refl refl refl refl
          (λ o. refl) (λ o v w e r. rw (e, r) refl) (λ o v n r e. rw (r, e) refl) (λ l. refl)
    block_ops Mnem.stm g =
        blocks Mnem.stm Mnem.st refl refl refl refl refl refl refl refl refl refl refl refl
          (λ o. refl) (λ o v w e r. rw (e, r) refl) (λ o v n r e. rw (r, e) refl) (λ l. refl)
    block_ops _ g = absurd (cc g)
