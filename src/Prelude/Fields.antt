-- ===== src/Prelude/Fields.antt =====
-- `|` of fields that do not overlap is a sum.
use native.Mathlib.Nat.{pow-suc}
use native.Mathlib.Numerals.{add-one}
use Prim.Native.Nat.{ℕ, zero, suc, ◌+◌, ◌*◌, ◌/◌, ◌^◌, ◌≤◌, ◌<◌, bit_or, bit_or-bitwise}
use mathlib.Core.Path.{◌≡◌, ◌∙◌}
use native.Mathlib.Omega.{arith}
use idli_v.Prelude.Bits.{bit_or_step, bit_or-zero}

pub pow-next : (i : ℕ) → 2 ^ (i + 1) ≡ 2 ^ i * 2
pow-next i = rw add-one (pow-suc 2 i)

halve : (p q : ℕ) → q * (p * 2) / 2 ≡ q * p
halve p q = omega arith

zero-bit_or : (a : ℕ) → bit_or 0 a ≡ a
zero-bit_or a = bit_or-bitwise 0 a

-- A high field and a low one ...
pub bit_or_fields : (i hi lo : ℕ) → lo < 2 ^ i → bit_or (hi * 2 ^ i) lo ≡ hi * 2 ^ i + lo
bit_or_fields zero hi zero h = bit_or-zero (hi * 1) ∙ omega arith
bit_or_fields zero hi (suc lo) h = absurd (omega arith)
bit_or_fields (suc i) hi lo h = rw (pow-suc 2 i) (
    bit_or_step (hi * (2 ^ i * 2)) lo
    ∙ rw (halve (2 ^ i) hi)
        (omega (arith, bit_or_fields i hi (lo / 2) (omega (arith, pow-suc 2 i)))))

-- ... and the other way round.
pub bit_or_fields_low : (i hi lo : ℕ) → lo < 2 ^ i → bit_or lo (hi * 2 ^ i) ≡ lo + hi * 2 ^ i
bit_or_fields_low zero hi zero h = zero-bit_or (hi * 1) ∙ omega arith
bit_or_fields_low zero hi (suc lo) h = absurd (omega arith)
bit_or_fields_low (suc i) hi lo h = rw (pow-suc 2 i) (
    bit_or_step lo (hi * (2 ^ i * 2))
    ∙ rw (halve (2 ^ i) hi)
        (omega (arith, bit_or_fields_low i hi (lo / 2) (omega (arith, pow-suc 2 i)))))

-- A bit above all that is there.
pub bit_or_above : (i r b : ℕ) → r < 2 ^ i → b ≤ 1 → bit_or r (b * 2 ^ i) ≡ r + 2 ^ i * b
bit_or_above i r b h k = bit_or_fields_low i b r h ∙ omega arith
