-- ===== src/Tgen/Whole/Direct.antt =====
-- The branches, LD and ST of scripts/tgen.py.
use idli_v.Prelude.{
  ℕ, ◌+◌, ◌%◌, ◌^◌, ◌≡◌, refl, ap, ◌∙◌, arith, true, List, [], ◌∷◌, Option, Result, ok,
}
use idli_v.Isa.Mnem.{Mnem}
use idli_v.Isa.Encoding.{Operand}
use idli_v.Isa.Instr.{no_ops}
use idli_v.Tgen.{Random, State}
use idli_v.Tgen.Pick.{is_redirect, mem_op, is_op, op_names, pick_ops, base_of}
use idli_v.Tgen.Operands.{InRange, start}
use idli_v.Tgen.Target.{reach, Chosen}
use idli_v.Tgen.Final.{AreKnown, HasRoom}
use idli_v.Tgen.Final.Branch.{branch_last}
use idli_v.Tgen.Final.Indexed.{indexed_last}
use idli_v.Tgen.Whole.Rounds.{last, next, reg-Fits, still}

module _ {R : Type 0} (random : Random R) (fuel pc : ℕ) (regs : List (Option ℕ))
    (in_range : InRange random) (known : AreKnown regs) where
  module _ (t : State R) (h : HasRoom random fuel pc regs in_range known t.used_addrs) where
    wrapped :
        (v : ℕ)
        → ◌≡◌ {A = Result (ℕ × ℕ)}
            (ok ((pc + 1 + v) % 2 ^ 16, 1))
            (ok (((pc + 1) % 2 ^ 16 + v) % 2 ^ 16, 1))
    wrapped v = ap (λ (n : ℕ). ok (n, 1)) {x = (pc + 1 + v) % 2 ^ 16} (omega arith)

    near_here :
        (v : ℕ)
        → ◌≡◌ {A = Result (ℕ × ℕ)} (ok ((pc + 0 + v) % 2 ^ 16, 1)) (ok ((pc + v) % 2 ^ 16, 1))
    near_here v = ap (λ (n : ℕ). ok (n, 1)) {x = (pc + 0 + v) % 2 ^ 16} (omega arith)

    -- A branch, relative to the word behind it with an immediate, and to itself with a register.
    pub branch :
        (k : Mnem)
        → is_redirect k ≡ true
        → Chosen pc regs t (pick_ops pc regs random fuel (op_names k) k no_ops t)
    unfolding base_of reach op_names
    branch Mnem.b g = last random fuel pc regs in_range known Operand.c Mnem.b no_ops t (
        branch_last random fuel pc regs in_range known Mnem.b ((pc + 1) % 2 ^ 16) pc no_ops t refl
          refl refl refl refl refl (omega arith) (λ o. refl) (λ o v. wrapped v)
          (λ o v n e. rw (n, e) (near_here v)) refl h (start Mnem.b))
    branch Mnem.bl g = last random fuel pc regs in_range known Operand.c Mnem.bl no_ops t (
        branch_last random fuel pc regs in_range known Mnem.bl ((pc + 1) % 2 ^ 16) pc no_ops t refl
          refl refl refl refl refl (omega arith) (λ o. refl) (λ o v. wrapped v)
          (λ o v n e. rw (n, e) (near_here v)) refl h (start Mnem.bl))
    branch Mnem.j g = last random fuel pc regs in_range known Operand.c Mnem.j no_ops t (
        branch_last random fuel pc regs in_range known Mnem.j 0 0 no_ops t refl refl refl refl refl
          refl (omega arith) (λ o. refl) (λ o v. refl) (λ o v n e. rw (n, e) refl) refl h
          (start Mnem.j))
    branch Mnem.jl g = last random fuel pc regs in_range known Operand.c Mnem.jl no_ops t (
        branch_last random fuel pc regs in_range known Mnem.jl 0 0 no_ops t refl refl refl refl refl
          refl (omega arith) (λ o. refl) (λ o v. refl) (λ o v n e. rw (n, e) refl) refl h
          (start Mnem.jl))
    branch _ g = absurd (cc g)

    -- LD and ST.
    pub with_index :
        (k : Mnem)
        → is_op Operand.c (mem_op k) ≡ true
        → Chosen pc regs t (pick_ops pc regs random fuel (op_names k) k no_ops t)
    unfolding base_of reach op_names
    with_index Mnem.ld g =
        next random fuel pc regs in_range known Operand.a (Operand.b ∷ Operand.c ∷ []) Mnem.ld
          no_ops t refl refl refl refl (start Mnem.ld)
          λ o t' p kept.
            next random fuel pc regs in_range known Operand.b (Operand.c ∷ []) Mnem.ld o t' refl
              refl refl refl p
              λ o' t'' p' kept'.
                let (base, e, small) =
                  reg-Fits random fuel pc regs in_range known o'.b (p'.fits Operand.b) in
                last random fuel pc regs in_range known Operand.c Mnem.ld o' t'' (
                  indexed_last random fuel pc regs in_range known Mnem.ld base o' t'' refl refl refl
                    refl refl small e (λ c. rw e refl) (λ o3 v e1 e2. rw (e1, e2) refl) refl
                    (still random fuel pc regs in_range known t t'' h (kept'.0 ∙ kept.0)) p')
    with_index Mnem.st g =
        next random fuel pc regs in_range known Operand.a (Operand.b ∷ Operand.c ∷ []) Mnem.st
          no_ops t refl refl refl refl (start Mnem.st)
          λ o t' p kept.
            next random fuel pc regs in_range known Operand.b (Operand.c ∷ []) Mnem.st o t' refl
              refl refl refl p
              λ o' t'' p' kept'.
                let (base, e, small) =
                  reg-Fits random fuel pc regs in_range known o'.b (p'.fits Operand.b) in
                last random fuel pc regs in_range known Operand.c Mnem.st o' t'' (
                  indexed_last random fuel pc regs in_range known Mnem.st base o' t'' refl refl refl
                    refl refl small e (λ c. rw e refl) (λ o3 v e1 e2. rw (e1, e2) refl) refl
                    (still random fuel pc regs in_range known t t'' h (kept'.0 ∙ kept.0)) p')
    with_index _ g = absurd (cc g)
