-- ===== src/Split.antt =====
-- The split of a binary between the two memories: `split` of scripts/hexdump.py (`_load_binary` of
-- scripts/tb.py and `flash` of scripts/podi.py hold the same two lines), and the merge that
-- `_check_mem_writes` of scripts/tb.py makes of them.
pub mod Merge
pub mod Dump
use idli_v.Prelude.{
  ℕ, ◌+◌, ◌*◌, ◌/◌, ◌%◌, ◌^◌, ◌<◌, ◌≡◌, refl, List, [], ◌∷◌, bit_or, Result, ok, err, struct_error,
  arith,
}

-- `((data & 0x0f) >> 0) | ((data & 0x0f00) >> 4)`
unfoldable pub low_byte : ℕ → ℕ
low_byte d = bit_or (d % 16) (d / 2 ^ 8 % 16 * 2 ^ 8 / 2 ^ 4)

-- `((data & 0xf0) >> 4) | ((data & 0xf000) >> 8)`
unfoldable pub high_byte : ℕ → ℕ
high_byte d = bit_or (d / 2 ^ 4 % 16 * 2 ^ 4 / 2 ^ 4) (d / 2 ^ 12 % 16 * 2 ^ 12 / 2 ^ 8)

-- The bytes of the two memories, in the order of the words; an odd byte fails to unpack.
unfoldable pub split : List ℕ → Result (List ℕ × List ℕ)
split [] = ok ([], [])
split (x ∷ []) = err struct_error
split (hi ∷ lo ∷ rest) = elim (split rest) [
  | err e ↦ err e
  | ok (los, his) ↦ ok (low_byte (hi * 256 + lo) ∷ los, high_byte (hi * 256 + lo) ∷ his)
]

-- `data |= ...`, four times.
unfoldable pub merge_bytes : ℕ → ℕ → ℕ
merge_bytes lo hi =
    bit_or
      (bit_or (bit_or (bit_or 0 (lo % 16 * 2 ^ 0)) (hi % 16 * 2 ^ 4)) (lo / 16 % 16 * 16 * 2 ^ 4))
      (hi / 16 % 16 * 16 * 2 ^ 8)
