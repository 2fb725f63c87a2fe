-- ===== src/Asm/Numbers/Range.antt =====
-- The range of the immediates of scripts/asm.py.
use idli_v.Prelude.{
  ℕ, ◌-◌, ◌^◌, ◌<◌, ◌≤◌, ◌≡◌, refl, arith, ℤ, pos, negsuc, ◌+ℤ◌, low16, ok, ltb, inl, inr,
  Bool-cases,
}
use idli_v.Objdump.RoundTrip.{IsI16}
use idli_v.Asm.Numbers.{signed_imm}

-- From -32768 to 65535.
abbrev pub IsImmRange : ℤ → Type 0
IsImmRange (pos n) = n < 2 ^ 16
IsImmRange (negsuc n) = n < 2 ^ 15

fold_high : (n : ℕ) → 2 ^ 15 ≤ n → n < 2 ^ 16 → pos n +ℤ negsuc 65535 ≡ negsuc (65535 - n)
fold_high n h k = ground arith

-- An integer from -32768 to 65535 becomes a signed 16-bit immediate with the same low 16 bits.
pub signed_imm-IsI16 :
    (z : ℤ) → IsImmRange z → (i : ℤ) × (signed_imm z ≡ ok i) × IsI16 i × (low16 i ≡ low16 z)
unfolding signed_imm
signed_imm-IsI16 (pos n) h = elim (Bool-cases (ltb 32767 n)) [
  | inl e ↦ (negsuc (65535 - n), (ground (arith, fold_high n)), (ground arith), (ground arith))
  | inr e ↦ (pos n, (ground arith), (ground arith), refl)
]
signed_imm-IsI16 (negsuc n) h = (negsuc n, (ground arith), h, refl)
