-- ===== src/Sim/Window/Methods.antt =====
-- The methods of scripts/sim.py that leave the counter: all but those of CARRY, ANDP and ORP.
use idli_v.Prelude.{
  ℕ, zero, suc, ◌+◌, ◌%◌, ◌^◌, refl, not, ◌&&◌, Option, none, some, ℤ, pos, low16, bit16, ◌+ℤ◌,
  if◌then◌else◌, exception, type_error, ◌==◌,
}
use idli_v.Isa.Mnem.{Mnem, starts_with, ends_with}
use idli_v.Isa.Instr.{Ops, Imm, int, ref, sp, lr}
use idli_v.Sim.State.{Callback, M, pure, write_reg, ◌>>=◌, ◌>>◌}
use idli_v.Sim.Exec.{
  u2s, imm_value, need, set_cin, out_value, store_pin, moves, moves_after, same_reg, is_given,
  carries, shift_cin, shift_value, value_c, offset_of, sets_cin, rhs_of, add_sub, cmp, jmp, utx,
  urx, inc_dec, st, ld, ldstm_one, ldstm_loop, ldstm, addpc, bitwise, shift, invert, getp, putp,
  out, read_in, cex,
}
use idli_v.Sim.Window.{
  Keeps, modify-Counts, >>=-Keeps, if-Keeps, pure-Keeps, raise-Keeps, gets-Keeps, read_reg-Keeps,
  write_reg-Keeps, write_pred-Keeps, write_cond-Keeps, write_out_pin-Keeps, call-Keeps,
  write_mem-Keeps,
}

module _ {E : Type 0} where
  imm_value-Keeps : (imm : Option Imm) → Keeps {E = E} (imm_value imm)
  imm_value-Keeps (some (int z)) = pure-Keeps z
  imm_value-Keeps (some (ref x)) = raise-Keeps type_error
  imm_value-Keeps none = raise-Keeps type_error

  value_c-Keeps : (c : Option ℕ) (imm : Option Imm) → Keeps {E = E} (value_c c imm)
  unfolding value_c
  value_c-Keeps none imm = raise-Keeps type_error
  value_c-Keeps (some r) imm =
      if-Keeps (r == sp) (imm_value-Keeps imm)
        (>>=-Keeps (read_reg-Keeps (some r)) λ v. pure-Keeps (pos v))

  need-Keeps : (o : Option ℕ) → Keeps {E = E} (need o)
  need-Keeps none = raise-Keeps type_error
  need-Keeps (some v) = pure-Keeps v

  set_cin-Keeps : (v : ℕ) → Keeps {E = E} (set_cin v)
  set_cin-Keeps v = modify-Counts (λ c. c) _ (λ s. refl)

  offset_of-Keeps : (k : Mnem) (o : Ops) → Keeps {E = E} (offset_of k o)
  unfolding offset_of
  offset_of-Keeps k o = if-Keeps (is_given o.c) (value_c-Keeps o.c o.imm) (pure-Keeps _)

module _ {E : Type 0} (cb : Callback E) where
  pub add_sub-Keeps : (k : Mnem) (o : Ops) → Keeps (add_sub cb k o)
  unfolding add_sub
  add_sub-Keeps k o = >>=-Keeps (read_reg-Keeps o.b) λ lhs.
      >>=-Keeps (value_c-Keeps o.c o.imm) λ rhs. >>=-Keeps (gets-Keeps _) λ cin.
        >>=-Keeps (set_cin-Keeps (bit16 (pos lhs +ℤ rhs_of k rhs +ℤ pos cin)))
          λ u. write_reg-Keeps cb o.a (low16 (pos lhs +ℤ rhs_of k rhs +ℤ pos cin))

  pub cmp-Keeps : (k : Mnem) (o : Ops) → Keeps (cmp cb k o)
  unfolding cmp
  cmp-Keeps k o = >>=-Keeps (read_reg-Keeps o.b) λ lhs. >>=-Keeps (value_c-Keeps o.c o.imm) λ rhs.
      >>=-Keeps (write_pred-Keeps cb _)
        λ u. if-Keeps (ends_with b'x' k) (write_cond-Keeps cb (some 3)) (pure-Keeps tt)

  pub jmp-Keeps : (k : Mnem) (o : Ops) → Keeps (jmp cb k o)
  unfolding jmp
  jmp-Keeps k o =
      let target : ℕ → ℤ → Option ℕ = λ pc rhs. some (
        low16 (
          pos (if starts_with b'b' k then pc else 0)
          +ℤ (if starts_with b'b' k then u2s rhs else rhs))) in
      let link : ℕ → M E (Unit {0}) =
        λ pc. if ends_with b'l' k then write_reg cb (some lr) ((pc + 1) % 2 ^ 16) else pure tt in
      let links : (pc : ℕ) → Keeps (link pc) = λ pc.
        if-Keeps (ends_with b'l' k) (write_reg-Keeps cb (some lr) ((pc + 1) % 2 ^ 16))
          (pure-Keeps tt) in
      >>=-Keeps {f = λ pc. value_c o.c o.imm >>= λ rhs. link pc >> pure (target pc rhs)}
        (gets-Keeps (λ s. s.pc))
        λ pc.
          >>=-Keeps {f = λ rhs. link pc >> pure (target pc rhs)} (value_c-Keeps o.c o.imm)
            λ rhs. >>=-Keeps {f = λ u. pure (target pc rhs)} (links pc) λ u. pure-Keeps _

  pub utx-Keeps : (o : Ops) → Keeps (utx cb o)
  unfolding utx
  utx-Keeps o = >>=-Keeps (value_c-Keeps o.c o.imm) λ value. modify-Counts (λ c. c) _ (λ s. refl)

  pub urx-Keeps : (o : Ops) → Keeps (urx cb o)
  unfolding urx
  urx-Keeps o = >>=-Keeps (call-Keeps cb cb.read_uart) λ value. write_reg-Keeps cb o.a _

  pub inc_dec-Keeps : (k : Mnem) (o : Ops) → Keeps (inc_dec cb k o)
  unfolding inc_dec
  inc_dec-Keeps k o = >>=-Keeps (read_reg-Keeps o.b) λ lhs. write_reg-Keeps cb o.a _

  pub st-Keeps : (k : Mnem) (o : Ops) → Keeps (st cb k o)
  unfolding st
  st-Keeps k o = >>=-Keeps (read_reg-Keeps o.b) λ base. >>=-Keeps (offset_of-Keeps k o) λ offset.
      >>=-Keeps
        (if-Keeps (moves k) (write_reg-Keeps cb o.b (low16 (pos base +ℤ offset))) (pure-Keeps tt))
        λ u. >>=-Keeps (read_reg-Keeps o.a) λ value. write_mem-Keeps cb _ value

  pub ld-Keeps : (k : Mnem) (o : Ops) → Keeps (ld cb k o)
  unfolding ld
  ld-Keeps k o = >>=-Keeps (read_reg-Keeps o.b) λ base. >>=-Keeps (offset_of-Keeps k o) λ offset.
      >>=-Keeps
        (if-Keeps (moves k && not (same_reg o.a o.b))
          (write_reg-Keeps cb o.b (low16 (pos base +ℤ offset))) (pure-Keeps tt))
        λ u.
          >>=-Keeps
            (call-Keeps cb
              (cb.read_mem (if moves_after k then base else low16 (pos base +ℤ offset))))
            λ value. write_reg-Keeps cb o.a value

  ldstm_one-Keeps : (k : Mnem) (r a : ℕ) → Keeps (ldstm_one cb k r a)
  unfolding ldstm_one
  ldstm_one-Keeps Mnem.stm r a = >>=-Keeps (read_reg-Keeps (some r)) λ v. write_mem-Keeps cb a v
  ldstm_one-Keeps _ r a =
      >>=-Keeps (call-Keeps cb (cb.read_mem a)) λ v. write_reg-Keeps cb (some r) v

  ldstm_loop-Keeps : (fuel : ℕ) (k : Mnem) (r s a : ℕ) → Keeps (ldstm_loop cb fuel k r s a)
  unfolding ldstm_loop
  ldstm_loop-Keeps zero k r s a = raise-Keeps exception
  ldstm_loop-Keeps (suc n) k r s a = >>=-Keeps (ldstm_one-Keeps k r a) λ u.
      if-Keeps (r == s) (pure-Keeps tt) (ldstm_loop-Keeps n k ((r + 1) % 16) s ((a + 1) % 2 ^ 16))

  pub ldstm-Keeps : (k : Mnem) (o : Ops) → Keeps (ldstm cb k o)
  unfolding ldstm
  ldstm-Keeps k o = >>=-Keeps (read_reg-Keeps o.b) λ a.
      >>=-Keeps (need-Keeps o.r) λ r. >>=-Keeps (need-Keeps o.s) λ s. ldstm_loop-Keeps 16 k r s a

  pub addpc-Keeps : (o : Ops) → Keeps (addpc cb o)
  unfolding addpc
  addpc-Keeps o = >>=-Keeps (gets-Keeps (λ s. s.pc)) λ pc.
      >>=-Keeps (value_c-Keeps o.c o.imm) λ rhs. write_reg-Keeps cb o.a (low16 (pos pc +ℤ rhs))

  pub bitwise-Keeps : (k : Mnem) (o : Ops) → Keeps (bitwise cb k o)
  unfolding bitwise
  bitwise-Keeps k o =
      >>=-Keeps (read_reg-Keeps o.b)
        λ lhs. >>=-Keeps (value_c-Keeps o.c o.imm) λ rhs. write_reg-Keeps cb o.a _

  pub shift-Keeps : (k : Mnem) (o : Ops) → Keeps (shift cb k o)
  unfolding shift
  shift-Keeps k o = >>=-Keeps (read_reg-Keeps o.b) λ reg.
      >>=-Keeps (gets-Keeps (λ s. if carries s then s.cin else shift_cin k (reg % 2 ^ 16))) λ cin.
        >>=-Keeps (if-Keeps (sets_cin k) (set_cin-Keeps (reg % 2 ^ 16 % 2)) (pure-Keeps tt))
          λ u. write_reg-Keeps cb o.a (shift_value k (reg % 2 ^ 16) cin)

  pub invert-Keeps : (o : Ops) → Keeps (invert cb o)
  unfolding invert
  invert-Keeps o = >>=-Keeps (read_reg-Keeps o.b) λ v. write_reg-Keeps cb o.a _

  pub getp-Keeps : (o : Ops) → Keeps (getp cb o)
  unfolding getp
  getp-Keeps o =
      >>=-Keeps (gets-Keeps (λ s. s.pred)) λ p. write_reg-Keeps cb o.a (if p then 1 else 0)

  pub putp-Keeps : (o : Ops) → Keeps (putp cb o)
  unfolding putp
  putp-Keeps o = >>=-Keeps (value_c-Keeps o.c o.imm) λ value. write_pred-Keeps cb _

  out_value-Keeps : (k : Mnem) (o : Ops) → Keeps {E = E} (out_value cb k o)
  out_value-Keeps Mnem.outp o = gets-Keeps _
  out_value-Keeps Mnem.outn o = >>=-Keeps (value_c-Keeps o.c o.imm) λ v. pure-Keeps _
  out_value-Keeps _ o = >>=-Keeps (value_c-Keeps o.c o.imm) λ v. pure-Keeps _

  pub out-Keeps : (k : Mnem) (o : Ops) → Keeps (out cb k o)
  unfolding out
  out-Keeps k o =
      >>=-Keeps (out_value-Keeps k o)
        λ value. >>=-Keeps (need-Keeps o.n) λ n. write_out_pin-Keeps cb n value

  store_pin-Keeps : (k : Mnem) (o : Ops) (v : ℕ) → Keeps (store_pin cb k o v)
  store_pin-Keeps Mnem.in_pin o v = write_reg-Keeps cb o.a v
  store_pin-Keeps Mnem.inpx o v =
      >>=-Keeps (write_pred-Keeps cb (v == 1)) λ u. write_cond-Keeps cb (some 3)
  store_pin-Keeps _ o v = write_pred-Keeps cb (v == 1)

  pub read_in-Keeps : (k : Mnem) (o : Ops) → Keeps (read_in cb k o)
  unfolding read_in
  read_in-Keeps k o =
      >>=-Keeps (need-Keeps o.n)
        λ n. >>=-Keeps (call-Keeps cb (cb.read_pin n)) λ value. store_pin-Keeps k o (value % 2)

  pub cex-Keeps : (m : Option ℕ) → Keeps (cex cb m)
  unfolding cex
  cex-Keeps m = write_cond-Keeps cb m
