-- ===== src/Sim/Negative.antt =====
-- The addition of an immediate in scripts/sim.py. The disassembler reads an immediate as a signed
-- number.
use idli_v.Prelude.{
  ℕ, suc, ◌+◌, ◌-◌, ◌/◌, ◌%◌, ◌^◌, ◌≤◌, ◌<◌, ◌≡◌, refl, arith, false, some, ok, set, get_elem?,
  low16, bit16, ℤ, pos, negsuc, ◌+ℤ◌, Bool-cases, inl, inr, ltb,
}
use idli_v.Isa.Mnem.{Mnem}
use idli_v.Isa.Instr.{Ops, no_ops, int, sp}
use idli_v.Sim.State.{Callback, Sim, ◌>>=◌}
use idli_v.Sim.Exec.{carries, add_sub, value_c}
use idli_v.Sim.Step.{read_reg-known}
use idli_v.Sim.Add.{write_reg-some}

-- `add d, b, imm`
abbrev pub imm_ops : ℕ → ℕ → ℤ → Ops
imm_ops d b z = record no_ops { a = some d; b = some b; c = some sp; imm = some (int z) }

-- The carry into bit 16 when the two 16-bit words are added.
abbrev pub word_carry : ℕ → ℤ → ℕ
word_carry l z = (l + low16 z) / 2 ^ 16

sum_above : (l n : ℕ) → n < l → pos l +ℤ negsuc n +ℤ pos 0 ≡ pos (l - suc n)
sum_above l n h = ground arith

sum_below : (l n : ℕ) → l ≤ n → pos l +ℤ negsuc n +ℤ pos 0 ≡ negsuc (n - l)
sum_below l n h = ground arith

-- The sum is right, and the carry is inverted.
sum_low :
    (l n : ℕ)
    → l < 2 ^ 16
    → n < 2 ^ 16
    → low16 (pos l +ℤ negsuc n +ℤ pos 0) ≡ (l + low16 (negsuc n)) % 2 ^ 16
sum_low l n h k = elim (Bool-cases (ltb n l)) [
  | inl e ↦ rw (sum_above l n (ground arith)) (ground arith)
  | inr e ↦ rw (sum_below l n (ground arith)) (ground arith)
]

sum_carry :
    (l n : ℕ)
    → l < 2 ^ 16
    → n < 2 ^ 16
    → bit16 (pos l +ℤ negsuc n +ℤ pos 0) ≡ 1 - word_carry l (negsuc n)
sum_carry l n h k = elim (Bool-cases (ltb n l)) [
  | inl e ↦ rw (sum_above l n (ground arith)) (ground arith)
  | inr e ↦ rw (sum_below l n (ground arith)) (ground arith)
]

-- ADD of a negative immediate without a carry in writes the 16-bit sum of the register and the
-- immediate's low 16 bits to the target, but sets the carry to the complement of that sum's own
-- carry, for a known 16-bit register and a target other than the zero register.
pub add_sub-negative :
    {E : Type 0} (cb : Callback E) (d b l n : ℕ) (s : Sim E)
    → 1 ≤ d
    → d < 16
    → get_elem? s.regs b ≡ some (some l)
    → l < 2 ^ 16
    → n < 2 ^ 15
    → carries s ≡ false
    → (s' : Sim E) × (add_sub cb Mnem.add (imm_ops d b (negsuc n)) s ≡ ok (tt, s'))
      × (s'.regs ≡ set s.regs d (some ((l + low16 (negsuc n)) % 2 ^ 16)))
      × (s'.cin ≡ 1 - word_carry l (negsuc n))
unfolding add_sub value_c
add_sub-negative cb d b l n s lo hi e h k q =
    let value = pos l +ℤ negsuc n +ℤ pos 0 in
    let s1 = record s { cin = bit16 value } in
    (
      record s1 {
        regs = set s.regs d (some (low16 value));
        env = cb.write_reg d (low16 value) s.env;
      },
      rw (read_reg-known s b l e, ◌>>=◌)
          (rw q (rw (write_reg-some cb d (low16 value) s1 lo hi) refl)),
      rw (sum_low l n h (omega arith)) refl,
      sum_carry l n h (omega arith),
    )
