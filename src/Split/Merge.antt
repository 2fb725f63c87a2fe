-- ===== src/Split/Merge.antt =====
-- The two memories hold the whole word.
use idli_v.Prelude.{
  ℕ, ◌+◌, ◌*◌, ◌/◌, ◌%◌, ◌^◌, ◌<◌, ◌≡◌, refl, ap, ap₂, ◌∙◌, arith, bit_or, List, [], ◌∷◌, ok,
}
use idli_v.Prelude.Fields.{bit_or_fields_low}
use idli_v.Split.{low_byte, high_byte, merge_bytes, split}

module _ (d : ℕ) where
  pub low_byte-sum : low_byte d ≡ d % 16 + d / 256 % 16 * 16
  unfolding low_byte
  low_byte-sum =
      let shifted : d / 2 ^ 8 % 16 * 2 ^ 8 / 2 ^ 4 ≡ d / 256 % 16 * 2 ^ 4 = omega arith in
      ap (bit_or (d % 16)) shifted ∙ bit_or_fields_low 4 (d / 256 % 16) (d % 16) (omega arith)

  pub high_byte-sum : high_byte d ≡ d / 16 % 16 + d / 4096 % 16 * 16
  unfolding high_byte
  high_byte-sum =
      let low : d / 2 ^ 4 % 16 * 2 ^ 4 / 2 ^ 4 ≡ d / 16 % 16 = omega arith in
      let shifted : d / 2 ^ 12 % 16 * 2 ^ 12 / 2 ^ 8 ≡ d / 4096 % 16 * 2 ^ 4 = omega arith in
      ap₂ bit_or low shifted ∙ bit_or_fields_low 4 (d / 4096 % 16) (d / 16 % 16) (omega arith)

merge_bytes-sum :
    (lo hi : ℕ)
    → merge_bytes lo hi ≡ lo % 16 + hi % 16 * 16 + lo / 16 % 16 * 256 + hi / 16 % 16 * 4096
unfolding merge_bytes
merge_bytes-sum lo hi =
    let first : bit_or 0 (lo % 16 * 2 ^ 0) ≡ lo % 16 =
      bit_or_fields_low 0 (lo % 16) 0 (omega arith) ∙ omega arith in
    let second : bit_or (lo % 16) (hi % 16 * 2 ^ 4) ≡ lo % 16 + hi % 16 * 16 =
      bit_or_fields_low 4 (hi % 16) (lo % 16) (omega arith) in
    let lo_top : lo / 16 % 16 * 16 * 2 ^ 4 ≡ lo / 16 % 16 * 2 ^ 8 = omega arith in
    let hi_top : hi / 16 % 16 * 16 * 2 ^ 8 ≡ hi / 16 % 16 * 2 ^ 12 = omega arith in
    rw (first, second, lo_top, hi_top)
      (rw (bit_or_fields_low 8 (lo / 16 % 16) (lo % 16 + hi % 16 * 16) (omega arith)) (
        bit_or_fields_low 12 (hi / 16 % 16) (lo % 16 + hi % 16 * 16 + lo / 16 % 16 * 2 ^ 8)
          (omega arith)))

-- Merging the two bytes of a word gives the word.
pub merge_bytes-split : (d : ℕ) → d < 2 ^ 16 → merge_bytes (low_byte d) (high_byte d) ≡ d
merge_bytes-split d h =
    omega (arith, merge_bytes-sum (low_byte d) (high_byte d), low_byte-sum d, high_byte-sum d)

-- The words of a binary.
abbrev pub words : List ℕ → List ℕ
words (hi ∷ lo ∷ rest) = (hi * 256 + lo) ∷ words rest
words _ = []

abbrev pub merge_all : List ℕ → List ℕ → List ℕ
merge_all (lo ∷ los) (hi ∷ his) = merge_bytes lo hi ∷ merge_all los his
merge_all _ _ = []

-- The bytes of a binary that is made of whole words.
abbrev pub IsBinary : List ℕ → Type 0
IsBinary [] = Unit {0}
IsBinary (x ∷ []) = ⊥
IsBinary (hi ∷ lo ∷ rest) = (hi < 256) × (lo < 256) × IsBinary rest

-- A binary of whole words splits, and the words merged from the two memories are its own.
pub merge_all-split :
    (binary : List ℕ)
    → IsBinary binary
    → (los : List ℕ) × (his : List ℕ) × (split binary ≡ ok (los, his))
      × (merge_all los his ≡ words binary)
unfolding split
merge_all-split [] h = ([], [], refl, refl)
merge_all-split (x ∷ []) h = absurd h
merge_all-split (hi ∷ lo ∷ rest) h =
    let (los, his, runs, same) = merge_all-split rest h.2 in
    let w : ℕ = hi * 256 + lo in
    (
      low_byte w ∷ los,
      high_byte w ∷ his,
      rw (runs, split) refl,
      ap₂ ◌∷◌ (merge_bytes-split w (omega (arith, h.0, h.1))) same,
    )
