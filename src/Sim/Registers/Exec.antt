-- ===== src/Sim/Registers/Exec.antt =====
-- The methods of scripts/sim.py keep the register file valid.
use idli_v.Prelude.{
  ℕ, ◌+◌, ◌%◌, ◌^◌, ◌≤◌, ◌<◌, refl, arith, Bool, true, false, Option, none, some, ℤ, pos, negsuc,
  low16, bit16, ◌+ℤ◌, if◌then◌else◌, type_error, ◌==◌,
}
use idli_v.Isa.Mnem.{Mnem, starts_with, ends_with}
use idli_v.Isa.Instr.{Ops, Imm, int, ref, sp, lr}
use idli_v.Sim.State.{Callback, CountOp, Sim, M, pure, gets, write_reg, ◌>>=◌, ◌>>◌}
use idli_v.Sim.Exec.{
  u2s, imm_value, need, set_cin, out_value, store_pin, moves, is_given, value_c, offset_of,
  bitwise_value, add_sub, cmp, jmp, utx, urx, inc_dec, st, addpc, bitwise, carry, andor_p, invert,
  getp, putp, out, read_in, cex, rhs_of,
}
use idli_v.Sim.Registers.{
  Ensures, Keeps, Anything, >>=-Ensures, if-Ensures, pure-Ensures, raise-Ensures, gets-Ensures,
  modify-Keeps, IsValid-regs, read_reg-Ensures, write_reg-Keeps, write_pred-Keeps, write_cond-Keeps,
  write_out_pin-Keeps, call-Ensures, write_mem-Keeps,
}

pub low16-lt : (z : ℤ) → low16 z < 2 ^ 16
low16-lt (pos n) = omega arith
low16-lt (negsuc n) = omega arith

pub bit16-le : (z : ℤ) → bit16 z ≤ 1
bit16-le (pos n) = omega arith
bit16-le (negsuc n) = omega arith

module _ {E : Type 0} where
  pub imm_value-Keeps : (imm : Option Imm) → Keeps {E = E} (imm_value imm)
  imm_value-Keeps (some (int z)) = pure-Ensures z tt
  imm_value-Keeps (some (ref x)) = raise-Ensures type_error
  imm_value-Keeps none = raise-Ensures type_error

  pub value_c-Keeps : (c : Option ℕ) (imm : Option Imm) → Keeps {E = E} (value_c c imm)
  unfolding value_c
  value_c-Keeps none imm = raise-Ensures type_error
  value_c-Keeps (some r) imm =
      if-Ensures (r == sp) (imm_value-Keeps imm)
        (>>=-Ensures (read_reg-Ensures (some r)) (λ v h. pure-Ensures (pos v) tt))

  pub need-Keeps : (o : Option ℕ) → Keeps {E = E} (need o)
  need-Keeps none = raise-Ensures type_error
  need-Keeps (some v) = pure-Ensures v tt

  pub set_cin-Keeps : (v : ℕ) → v ≤ 1 → Keeps {E = E} (set_cin v)
  set_cin-Keeps v h =
      modify-Keeps (λ s. record s { cin = v }) (λ s i. IsValid-regs s _ i refl h refl)

  pub any_gets : {A : Type 0} (f : Sim E → A) → Ensures (gets f) Anything
  any_gets f = gets-Ensures f (λ s v. tt)

module _ {E : Type 0} (cb : Callback E) where
  pub add_sub-Keeps : (k : Mnem) (o : Ops) → Keeps (add_sub cb k o)
  unfolding add_sub
  add_sub-Keeps k o = >>=-Ensures (read_reg-Ensures o.b) λ lhs h.
      >>=-Ensures (value_c-Keeps o.c o.imm) λ rhs u. >>=-Ensures (any_gets _) λ cin u.
        let value = pos lhs +ℤ rhs_of k rhs +ℤ pos cin in
        >>=-Ensures (set_cin-Keeps (bit16 value) (bit16-le value))
          λ u w. write_reg-Keeps cb o.a (low16 value) (low16-lt value)

  pub cmp-Keeps : (k : Mnem) (o : Ops) → Keeps (cmp cb k o)
  unfolding cmp
  cmp-Keeps k o = >>=-Ensures (read_reg-Ensures o.b) λ lhs h.
      >>=-Ensures (value_c-Keeps o.c o.imm) λ rhs u.
        >>=-Ensures (write_pred-Keeps cb _)
          λ u w. if-Ensures (ends_with b'x' k) (write_cond-Keeps cb (some 3)) (pure-Ensures tt tt)

  pub jmp-Keeps : (k : Mnem) (o : Ops) → Keeps (jmp cb k o)
  unfolding jmp
  jmp-Keeps k o =
      let target : ℕ → ℤ → Option ℕ = λ pc rhs. some (
        low16 (
          pos (if starts_with b'b' k then pc else 0)
          +ℤ (if starts_with b'b' k then u2s rhs else rhs))) in
      let link : ℕ → M E (Unit {0}) =
        λ pc. if ends_with b'l' k then write_reg cb (some lr) ((pc + 1) % 2 ^ 16) else pure tt in
      let links : (pc : ℕ) → Keeps (link pc) = λ pc.
        if-Ensures (ends_with b'l' k)
          (write_reg-Keeps cb (some lr) ((pc + 1) % 2 ^ 16) (omega arith)) (pure-Ensures tt tt) in
      >>=-Ensures {f = λ pc. value_c o.c o.imm >>= λ rhs. link pc >> pure (target pc rhs)}
        (any_gets (λ s. s.pc))
        λ pc u.
          >>=-Ensures {f = λ rhs. link pc >> pure (target pc rhs)} (value_c-Keeps o.c o.imm)
            λ rhs u.
              >>=-Ensures {f = λ u. pure (target pc rhs)} (links pc)
                λ u w. pure-Ensures (target pc rhs) tt

  pub utx-Keeps : (o : Ops) → Keeps (utx cb o)
  unfolding utx
  utx-Keeps o =
      >>=-Ensures (value_c-Keeps o.c o.imm)
        λ value u. modify-Keeps _ (λ s v. IsValid-regs s _ v refl v.cin_bit refl)

  pub urx-Keeps : (o : Ops) → Keeps (urx cb o)
  unfolding urx
  urx-Keeps o =
      >>=-Ensures {Q = Anything} (call-Ensures cb cb.read_uart (λ e e' a p. tt))
        λ value u. write_reg-Keeps cb o.a (low16 value) (low16-lt value)

  pub inc_dec-Keeps : (k : Mnem) (o : Ops) → Keeps (inc_dec cb k o)
  unfolding inc_dec
  inc_dec-Keeps k o =
      >>=-Ensures (read_reg-Ensures o.b) λ lhs h. write_reg-Keeps cb o.a _ (low16-lt _)

  pub offset_of-Keeps : (k : Mnem) (o : Ops) → Keeps {E = E} (offset_of k o)
  unfolding offset_of
  offset_of-Keeps k o = if-Ensures (is_given o.c) (value_c-Keeps o.c o.imm) (pure-Ensures _ tt)

  pub st-Keeps : (k : Mnem) (o : Ops) → Keeps (st cb k o)
  unfolding st
  st-Keeps k o = >>=-Ensures (read_reg-Ensures o.b) λ base h.
      >>=-Ensures (offset_of-Keeps k o) λ offset u.
        >>=-Ensures
          (if-Ensures (moves k) (write_reg-Keeps cb o.b (low16 (pos base +ℤ offset)) (low16-lt _))
            (pure-Ensures tt tt))
          λ u w. >>=-Ensures (read_reg-Ensures o.a) λ value h. write_mem-Keeps cb _ value

  pub addpc-Keeps : (o : Ops) → Keeps (addpc cb o)
  unfolding addpc
  addpc-Keeps o = >>=-Ensures (any_gets _) λ pc u.
      >>=-Ensures (value_c-Keeps o.c o.imm)
        λ rhs u. write_reg-Keeps cb o.a _ (low16-lt (pos pc +ℤ rhs))

  pub bitwise_value-lt : (k : Mnem) (l r : ℕ) → bitwise_value k l r < 2 ^ 16
  unfolding bitwise_value
  bitwise_value-lt Mnem.and l r = omega arith
  bitwise_value-lt Mnem.andn l r = omega arith
  bitwise_value-lt Mnem.or l r = omega arith
  bitwise_value-lt _ l r = omega arith

  pub bitwise-Keeps : (k : Mnem) (o : Ops) → Keeps (bitwise cb k o)
  unfolding bitwise
  bitwise-Keeps k o = >>=-Ensures (read_reg-Ensures o.b) λ lhs h.
      >>=-Ensures (value_c-Keeps o.c o.imm)
        λ rhs u. write_reg-Keeps cb o.a _ (bitwise_value-lt k lhs (low16 rhs))

  pub carry-Keeps : (o : Ops) → Keeps (carry cb o)
  unfolding carry
  carry-Keeps o =
      >>=-Ensures (need-Keeps o.j)
        λ j u. modify-Keeps _ (λ s v. IsValid-regs s _ v refl (omega arith) refl)

  pub andor_p-Keeps : (op : CountOp) (o : Ops) → Keeps (andor_p cb op o)
  unfolding andor_p
  andor_p-Keeps op o =
      >>=-Ensures (need-Keeps o.j)
        λ j u. modify-Keeps _ (λ s v. IsValid-regs s _ v refl v.cin_bit refl)

  pub invert-Keeps : (o : Ops) → Keeps (invert cb o)
  unfolding invert
  invert-Keeps o =
      >>=-Ensures (read_reg-Ensures o.b) λ v h. write_reg-Keeps cb o.a _ (low16-lt (negsuc v))

  pub one_bit-lt : (p : Bool) → (if p then 1 else 0) < 2 ^ 16
  one_bit-lt true = omega arith
  one_bit-lt false = omega arith

  pub getp-Keeps : (o : Ops) → Keeps (getp cb o)
  unfolding getp
  getp-Keeps o = >>=-Ensures (any_gets _) λ p u. write_reg-Keeps cb o.a _ (one_bit-lt p)

  pub putp-Keeps : (o : Ops) → Keeps (putp cb o)
  unfolding putp
  putp-Keeps o = >>=-Ensures (value_c-Keeps o.c o.imm) λ value u. write_pred-Keeps cb _

  pub out_value-Keeps : (k : Mnem) (o : Ops) → Keeps {E = E} (out_value cb k o)
  out_value-Keeps Mnem.outp o = any_gets _
  out_value-Keeps Mnem.outn o = >>=-Ensures (value_c-Keeps o.c o.imm) λ v u. pure-Ensures _ tt
  out_value-Keeps _ o = >>=-Ensures (value_c-Keeps o.c o.imm) λ v u. pure-Ensures _ tt

  pub store_pin-Keeps : (k : Mnem) (o : Ops) (v : ℕ) → v < 2 ^ 16 → Keeps (store_pin cb k o v)
  store_pin-Keeps Mnem.in_pin o v h = write_reg-Keeps cb o.a v h
  store_pin-Keeps Mnem.inpx o v h =
      >>=-Ensures (write_pred-Keeps cb (v == 1)) λ u w. write_cond-Keeps cb (some 3)
  store_pin-Keeps _ o v h = write_pred-Keeps cb (v == 1)

  pub read_in-Keeps : (k : Mnem) (o : Ops) → Keeps (read_in cb k o)
  unfolding read_in
  read_in-Keeps k o = >>=-Ensures (need-Keeps o.n) λ n u.
      >>=-Ensures {Q = Anything} (call-Ensures cb (cb.read_pin n) (λ e e' a p. tt))
        λ value u. store_pin-Keeps k o (value % 2) (omega arith)

  pub out-Keeps : (k : Mnem) (o : Ops) → Keeps (out cb k o)
  unfolding out
  out-Keeps k o =
      >>=-Ensures (out_value-Keeps k o)
        λ value u. >>=-Ensures (need-Keeps o.n) λ n u. write_out_pin-Keeps cb n value

  pub cex-Keeps : (m : Option ℕ) → Keeps (cex cb m)
  unfolding cex
  cex-Keeps m = write_cond-Keeps cb m
