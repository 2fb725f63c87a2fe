-- ===== src/Sim/Registers/Load.antt =====
-- The loads and the shifts of scripts/sim.py keep the register file valid, over a memory that
-- gives words.
use idli_v.Prelude.{
  ℕ, zero, suc, ◌+◌, ◌*◌, ◌/◌, ◌%◌, ◌^◌, ◌≤◌, ◌<◌, ◌≡◌, arith, Bool, true, false, not, ◌&&◌, some,
  ok, pos, low16, ◌+ℤ◌, bit_or, if◌then◌else◌, exception, ◌==◌,
}
use idli_v.Prelude.Fields.{bit_or_fields_low}
use idli_v.Isa.Mnem.{Mnem}
use idli_v.Isa.Instr.{Ops}
use idli_v.Sim.State.{Callback}
use idli_v.Sim.Exec.{
  shift_cin, sets_cin, moves, moves_after, same_reg, carries, shift_value, ld, ldstm_one,
  ldstm_loop, ldstm, shift,
}
use idli_v.Sim.Registers.{
  Keeps, >>=-Ensures, if-Ensures, pure-Ensures, raise-Ensures, gets-Ensures, read_reg-Ensures,
  write_reg-Keeps, call-Ensures, write_mem-Keeps,
}
use idli_v.Sim.Registers.Exec.{low16-lt, need-Keeps, set_cin-Keeps, offset_of-Keeps}

-- The values that the memory gives are words.
abbrev pub ReadsWords : {E : Type 0} → Callback E → Type 0
ReadsWords {E = E} cb = (a : ℕ) (e e' : E) (v : ℕ) → cb.read_mem a e ≡ ok (v, e') → v < 2 ^ 16

right_shift-lt : (v cin : ℕ) → v < 2 ^ 16 → cin ≤ 1 → bit_or (v / 2) (cin * 2 ^ 15) < 2 ^ 16
right_shift-lt v cin h c = omega (arith, bit_or_fields_low 15 cin (v / 2) (omega arith))

shift_value-lt : (k : Mnem) (v cin : ℕ) → v < 2 ^ 16 → cin ≤ 1 → shift_value k v cin < 2 ^ 16
unfolding shift_value
shift_value-lt Mnem.srl v cin h c = right_shift-lt v cin h c
shift_value-lt Mnem.sra v cin h c = right_shift-lt v cin h c
shift_value-lt Mnem.ror v cin h c = omega (arith, bit_or_fields_low 16 (v % 2) v h)
shift_value-lt _ v cin h c = omega arith

shift_cin-le : (k : Mnem) (v : ℕ) → v < 2 ^ 16 → shift_cin k v ≤ 1
shift_cin-le Mnem.srl v h = omega arith
shift_cin-le _ v h = omega arith

first_cin-le :
    (b : Bool) (k : Mnem) (cin v : ℕ)
    → cin ≤ 1
    → v < 2 ^ 16
    → (if b then cin else shift_cin k v) ≤ 1
first_cin-le true k cin v h w = h
first_cin-le false k cin v h w = shift_cin-le k v w

module _ {E : Type 0} (cb : Callback E) where
  pub shift-Keeps : (k : Mnem) (o : Ops) → Keeps (shift cb k o)
  unfolding shift
  shift-Keeps k o = >>=-Ensures (read_reg-Ensures o.b) λ reg h.
      let value = reg % 2 ^ 16 in
      >>=-Ensures {Q = λ c. c ≤ 1}
        (gets-Ensures _ (λ s v. first_cin-le (carries s) k s.cin value v.cin_bit (omega arith)))
        λ cin c.
          >>=-Ensures
            (if-Ensures (sets_cin k) (set_cin-Keeps (value % 2) (omega arith)) (pure-Ensures tt tt))
            λ u w.
              write_reg-Keeps cb o.a (shift_value k value cin)
                (shift_value-lt k value cin (omega arith) c)

  pub ld-Keeps : ReadsWords cb → (k : Mnem) (o : Ops) → Keeps (ld cb k o)
  unfolding ld
  ld-Keeps h k o = >>=-Ensures (read_reg-Ensures o.b) λ base u.
      >>=-Ensures (offset_of-Keeps cb k o) λ offset u.
        >>=-Ensures
          (if-Ensures (moves k && not (same_reg o.a o.b))
            (write_reg-Keeps cb o.b (low16 (pos base +ℤ offset)) (low16-lt _)) (pure-Ensures tt tt))
          λ u w.
            >>=-Ensures {Q = λ v. v < 2 ^ 16}
              (call-Ensures cb
                (cb.read_mem (if moves_after k then base else low16 (pos base +ℤ offset)))
                (λ e e' v p. h _ e e' v p))
              λ value q. write_reg-Keeps cb o.a value q

  ldstm_one-Keeps : ReadsWords cb → (k : Mnem) (r a : ℕ) → Keeps (ldstm_one cb k r a)
  unfolding ldstm_one
  ldstm_one-Keeps h Mnem.stm r a =
      >>=-Ensures (read_reg-Ensures (some r)) λ v q. write_mem-Keeps cb a v
  ldstm_one-Keeps h _ r a =
      >>=-Ensures {Q = λ v. v < 2 ^ 16} (call-Ensures cb (cb.read_mem a) (λ e e' v p. h a e e' v p))
        λ v q. write_reg-Keeps cb (some r) v q

  ldstm_loop-Keeps :
      ReadsWords cb → (fuel : ℕ) (k : Mnem) (r s a : ℕ) → Keeps (ldstm_loop cb fuel k r s a)
  unfolding ldstm_loop
  ldstm_loop-Keeps h zero k r s a = raise-Ensures exception
  ldstm_loop-Keeps h (suc n) k r s a = >>=-Ensures (ldstm_one-Keeps h k r a) λ u w.
      if-Ensures (r == s) (pure-Ensures tt tt)
        (ldstm_loop-Keeps h n k ((r + 1) % 16) s ((a + 1) % 2 ^ 16))

  pub ldstm-Keeps : ReadsWords cb → (k : Mnem) (o : Ops) → Keeps (ldstm cb k o)
  unfolding ldstm
  ldstm-Keeps h k o = >>=-Ensures (read_reg-Ensures o.b) λ a u.
      >>=-Ensures (need-Keeps o.r)
        λ r u. >>=-Ensures (need-Keeps o.s) λ s u. ldstm_loop-Keeps h 16 k r s a
