-- ===== src/Tgen/Whole/Moving.antt =====
-- The memory operations of scripts/tgen.py that move their base.
use idli_v.Prelude.{
  ℕ, ◌+◌, ◌%◌, ◌^◌, ◌≡◌, refl, arith, true, false, List, [], ◌∷◌, Option, some, ℤ, pos, negsuc,
  ◌+ℤ◌, low16, ok,
}
use idli_v.Isa.Mnem.{Mnem, has_char}
use idli_v.Isa.Encoding.{Operand, count, pattern}
use idli_v.Isa.Instr.{Ops, int, no_ops, sp}
use idli_v.Tgen.{Random, State, rand_imm}
use idli_v.Tgen.Pick.{
  is_redirect, mem_op, is_addr, indexed, is_ldstm, is_op, op_names, pick_ops, base_of, reg_value,
}
use idli_v.Tgen.Operands.{Progress-next, InRange, start, set_op-Sets}
use idli_v.Tgen.Operands.Plain.{small_reg}
use idli_v.Tgen.Target.{reach, Chosen, addresses}
use idli_v.Tgen.Final.{AreKnown, HasRoom, reg_value-known, imm_none}
use idli_v.Tgen.Final.Block.{block_last}
use idli_v.Tgen.Whole.Widths.{Fits-none, whole_Progress, open_as}
use idli_v.Tgen.Whole.Rounds.{last, next, still}

module _ {R : Type 0} (random : Random R) (fuel pc : ℕ) (regs : List (Option ℕ))
    (in_range : InRange random) (known : AreKnown regs) where
  module _ (t : State R) (h : HasRoom random fuel pc regs in_range known t.used_addrs) where
    -- A memory operation that moves its base.
    moving :
        (k k' : Mnem) (step : ℤ)
        → op_names k ≡ Operand.a ∷ Operand.b ∷ []
        → is_redirect k ≡ false
        → is_addr k Operand.a ≡ false
        → is_addr k Operand.b ≡ true
        → is_op Operand.b (mem_op k) ≡ true
        → is_op Operand.c (mem_op k) ≡ false
        → is_op Operand.c (mem_op k') ≡ true
        → addresses k ≡ true
        → addresses k' ≡ true
        → indexed k ≡ k'
        → is_ldstm k ≡ false
        → ((o : Ops) → base_of pc regs k o ≡ ok step)
        → ((o : Ops) (v w : ℕ)
            → o.imm ≡ some (int (pos v))
            → reg_value regs o.b ≡ ok w
            → reach pc regs k' o ≡ ok ((w + v) % 2 ^ 16, 1))
        → ((o : Ops) (v : ℕ)
            → reg_value regs o.b ≡ ok v
            → reach pc regs k o ≡ ok (low16 (pos v +ℤ step), 1))
        → ((l : Operand) → count l (pattern k) ≡ count l (pattern Mnem.ld_inc))
        → Chosen pc regs t (pick_ops pc regs random fuel (op_names k) k no_ops t)
    unfolding pattern
    moving k k' step names g a0 addressed block no_index index adr adr' becomes one base_is
          reach_imm reach_reg widths =
        rw names (
          next random fuel pc regs in_range known Operand.a (Operand.b ∷ []) k no_ops t g a0 refl
            (widths Operand.a) (rw names at (start k))
            λ o t' p kept.
              let x = rand_imm random 0 15 t' in
              let (base, e, small) =
                reg_value-known random fuel pc regs in_range known (x.0)
                  (small_reg random fuel pc regs in_range t') in
              let fits = λ (l : Operand). open_as k Operand.b o p widths l in
              let no_imm = imm_none o.c o.imm (Fits-none o.c (fits Operand.c)) p.imm in
              let o' : Ops = record o { b = some (x.0) } in
              let o2 : Ops = record o' { c = some sp } in
              last random fuel pc regs in_range known Operand.b k o t' (
                block_last random fuel pc regs in_range known k k' base 1 step o t' g addressed
                  block no_index adr adr' becomes (base_is o') (rw one refl) small (rw one e)
                  (λ v. rw one (reach_imm (record o2 { imm = some (int (pos v)) }) v base refl e))
                  (λ v r. reach_reg o' v r) (still random fuel pc regs in_range known t t' h kept.0)
                  no_imm
                  (Progress-next k Operand.b [] o o' refl (widths Operand.b) p (
                    set_op-Sets Operand.b (x.0) o refl (small_reg random fuel pc regs in_range t')))
                  (λ v fits16. rw one (
                    whole_Progress k' o2 v index
                      (
                        fits Operand.r,
                        fits Operand.s,
                        fits Operand.a,
                        small_reg random fuel pc regs in_range t',
                        fits Operand.n,
                        fits Operand.m,
                        fits Operand.j,
                        refl,
                      )
                      fits16))))

    pub move :
        (k : Mnem)
        → is_op Operand.b (mem_op k) ≡ true
        → is_ldstm k ≡ false
        → Chosen pc regs t (pick_ops pc regs random fuel (op_names k) k no_ops t)
    unfolding base_of reach op_names has_char
    move Mnem.ld_inc g n =
        moving Mnem.ld_inc Mnem.ld (pos 0) refl refl refl refl refl refl refl refl refl refl refl
          (λ o. refl) (λ o v w e r. rw (e, r) refl) (λ o v r. rw r refl) (λ l. refl)
    move Mnem.inc_ld g n =
        moving Mnem.inc_ld Mnem.ld (pos 1) refl refl refl refl refl refl refl refl refl refl refl
          (λ o. refl) (λ o v w e r. rw (e, r) refl) (λ o v r. rw r refl) (λ l. refl)
    move Mnem.ld_dec g n =
        moving Mnem.ld_dec Mnem.ld (pos 0) refl refl refl refl refl refl refl refl refl refl refl
          (λ o. refl) (λ o v w e r. rw (e, r) refl) (λ o v r. rw r refl) (λ l. refl)
    move Mnem.dec_ld g n =
        moving Mnem.dec_ld Mnem.ld (negsuc 0) refl refl refl refl refl refl refl refl refl refl refl
          (λ o. refl) (λ o v w e r. rw (e, r) refl) (λ o v r. rw r refl) (λ l. refl)
    move Mnem.st_inc g n =
        moving Mnem.st_inc Mnem.st (pos 0) refl refl refl refl refl refl refl refl refl refl refl
          (λ o. refl) (λ o v w e r. rw (e, r) refl) (λ o v r. rw r refl) (λ l. refl)
    move Mnem.inc_st g n =
        moving Mnem.inc_st Mnem.st (pos 1) refl refl refl refl refl refl refl refl refl refl refl
          (λ o. refl) (λ o v w e r. rw (e, r) refl) (λ o v r. rw r refl) (λ l. refl)
    move Mnem.st_dec g n =
        moving Mnem.st_dec Mnem.st (pos 0) refl refl refl refl refl refl refl refl refl refl refl
          (λ o. refl) (λ o v w e r. rw (e, r) refl) (λ o v r. rw r refl) (λ l. refl)
    move Mnem.dec_st g n =
        moving Mnem.dec_st Mnem.st (negsuc 0) refl refl refl refl refl refl refl refl refl refl refl
          (λ o. refl) (λ o v w e r. rw (e, r) refl) (λ o v r. rw r refl) (λ l. refl)
    move _ g n = absurd (ground (arith, g, n))
