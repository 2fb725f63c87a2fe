-- ===== src/Tgen/Operands/Plain.antt =====
-- The operands that hold no address: a round of the loop of `rand_instr` of scripts/tgen.py.
use idli_v.Prelude.{
  ℕ, ◌<◌, ◌^◌, ◌≡◌, refl, ◌∙◌, arith, false, List, Option, some, pos, ok, Result, inl, inr,
  Bool-cases, ◌==◌, if◌then◌else◌,
}
use idli_v.Isa.Mnem.{Mnem}
use idli_v.Isa.Encoding.{Operand}
use idli_v.Isa.Instr.{Ops, int, sp}
use idli_v.Isa.Instr.Encode.{Fits}
use idli_v.Tgen.{Random, State, rand_imm}
use idli_v.Tgen.Pick.{
  is_redirect, is_addr, is_op, set_op, pick_reg, pick_op, base_of, check_target, check_block,
  check_indexed, pick_imm,
}
use idli_v.Tgen.Operands.{InRange, Kept, Sets, width, c-Sets, sp-Sets, set_op-Sets}

pub record Step {R : Type 0} (l : Operand) (k : Mnem) (o : Ops) (t : State R)
    (result : Result (Mnem × Ops × State R)) : Type 0 where
  pub ops : Ops
  pub state : State R
  pub runs : result ≡ ok (k, ops, state)
  pub sets : Sets l o ops
  pub kept : Kept t state

module _ {R : Type 0} (random : Random R) (fuel pc : ℕ) (regs : List (Option ℕ))
    (in_range : InRange random) where
  -- The number of a register other than C, which is not an address.
  plain_reg :
      (l : Operand) (k : Mnem) (o : Ops) (t : State R)
      → is_op l (some Operand.c) ≡ false
      → is_redirect k ≡ false
      → is_addr k l ≡ false
      → pick_reg pc regs random fuel l k o t
        ≡ (let x = rand_imm random 0 15 t in ok (k, set_op l (x.0) o, x.1))
  unfolding pick_reg base_of check_target check_block check_indexed pick_imm
  plain_reg l k o t c h g = rw (g, h, c) refl

  -- C, with an immediate if it is SP.
  plain_c :
      (k : Mnem) (o : Ops) (t : State R)
      → is_redirect k ≡ false
      → is_addr k Operand.c ≡ false
      → pick_reg pc regs random fuel Operand.c k o t ≡ (
          let x = rand_imm random 0 15 t in
          let y = rand_imm random 0 0xffff x.1 in
          if (x.0) == sp
          then ok (k, record o { c = some (x.0); imm = some (int (pos (y.0))) }, y.1)
          else ok (k, record o { c = some (x.0) }, x.1))
  unfolding pick_reg base_of check_target check_block check_indexed pick_imm
  plain_c k o t h g =
      let x = rand_imm random 0 15 t in
      elim (Bool-cases ((x.0) == sp)) [ inl e ↦ rw (g, h, e) refl | inr e ↦ rw (g, h, e) refl ]

  pub small_reg : (t : State R) → (rand_imm random 0 15 t).0 < 2 ^ 4
  small_reg t = omega (arith, (in_range 0 15 t.source (omega arith)).1)

  c-Step :
      (k : Mnem) (o : Ops) (t : State R)
      → is_redirect k ≡ false
      → is_addr k Operand.c ≡ false
      → Step Operand.c k o t (pick_op pc regs random fuel Operand.c k o t)
  c-Step k o t h g =
      let x = rand_imm random 0 15 t in
      let y = rand_imm random 0 0xffff x.1 in
      elim (Bool-cases ((x.0) == sp)) [
        | inl e ↦ record {
          ops = record o { c = some (x.0); imm = some (int (pos (y.0))) };
          state = y.1;
          runs = plain_c k o t h g ∙ rw e refl;
          sets =
              sp-Sets (x.0) (y.0) o e (small_reg t)
                (omega (arith, (in_range 0 0xffff x.1.source (omega arith)).1));
          kept = (refl, refl);
        }
        | inr e ↦ record {
          ops = record o { c = some (x.0) };
          state = x.1;
          runs = plain_c k o t h g ∙ rw e refl;
          sets = c-Sets (x.0) o e (small_reg t);
          kept = (refl, refl);
        }
      ]

  reg-Step :
      (l : Operand) (k : Mnem) (o : Ops) (t : State R)
      → is_op l (some Operand.c) ≡ false
      → is_redirect k ≡ false
      → is_addr k l ≡ false
      → width l ≡ 4
      → Step l k o t (pick_reg pc regs random fuel l k o t)
  reg-Step l k o t c h g w =
      let x = rand_imm random 0 15 t in
      record {
        ops = set_op l (x.0) o;
        state = x.1;
        runs = plain_reg l k o t c h g;
        sets = set_op-Sets l (x.0) o c (rw w (small_reg t));
        kept = (refl, refl);
      }

  number-Step :
      (l : Operand) (lo hi : ℕ) (k : Mnem) (o : Ops) (t t' : State R)
      → is_op l (some Operand.c) ≡ false
      → Fits (width l) (some (random.randint lo hi t.source).0)
      → Kept t t'
      → Step l k o t (ok (k, set_op l (random.randint lo hi t.source).0 o, t'))
  number-Step l lo hi k o t t' c f h =
      let v = (random.randint lo hi t.source).0 in
      record { ops = set_op l v o; state = t'; runs = refl; sets = set_op-Sets l v o c f; kept = h }

  -- A round for an operand that holds no address, of a mnemonic that is no branch.
  pub plain-Step :
      (l : Operand) (k : Mnem) (o : Ops) (t : State R)
      → is_redirect k ≡ false
      → is_addr k l ≡ false
      → Step l k o t (pick_op pc regs random fuel l k o t)
  plain-Step Operand.r k o t h g = reg-Step Operand.r k o t refl h g refl
  plain-Step Operand.s k o t h g = reg-Step Operand.s k o t refl h g refl
  plain-Step Operand.a k o t h g = reg-Step Operand.a k o t refl h g refl
  plain-Step Operand.b k o t h g = reg-Step Operand.b k o t refl h g refl
  plain-Step Operand.c k o t h g = c-Step k o t h g
  plain-Step Operand.n k o t h g =
      number-Step Operand.n 0 3 k o t _ refl
        (omega (arith, (in_range 0 3 t.source (omega arith)).1)) (refl, refl)
  plain-Step Operand.m k o t h g =
      number-Step Operand.m 1 7 k o t _ refl
        (omega (arith, (in_range 1 7 t.source (omega arith)).1)) (refl, refl)
  plain-Step Operand.j k o t h g =
      number-Step Operand.j 0 15 k o t _ refl
        (omega (arith, (in_range 0 15 t.source (omega arith)).1)) (refl, refl)
