-- ===== src/Isa/Instr/Mask.antt =====
-- The mask of CEX: one bit for each follower, T or F, under a final one.
use idli_v.Prelude.{
  ℕ, zero, suc, ◌+◌, ◌*◌, ◌≤◌, ◌<◌, ◌^◌, ◌≡◌, refl, ap, ◌∙◌, List, [], ◌∷◌, arith, ok, bit_or,
  length, some,
}
use native.Mathlib.Nat.{pow-suc, mul_comm}
use idli_v.Prelude.Fields.{pow-next}
use idli_v.Prelude.Bits.{bit_or-bit}
use idli_v.Isa.Instr.{Item, Cond, cond_t, cond_f, cond_of, cond_bit, mask_loop, encode_mask}

-- The mask as a numeral: the first follower is the lowest bit.
abbrev pub mask_value : List Cond → ℕ
mask_value [] = 1
mask_value (x ∷ conds) = 2 * mask_value conds + cond_bit x

-- The followers begin with instructions that have these conditions.
abbrev pub Follow : List Cond → List Item → Type 0
Follow [] followers = Unit {0}
Follow (x ∷ conds) [] = ⊥
Follow (x ∷ conds) (f ∷ followers) = (cond_of f ≡ some x) × Follow conds followers

cond_bit-le : (x : Cond) → cond_bit x ≤ 1
cond_bit-le cond_t = omega arith
cond_bit-le cond_f = omega arith

-- One follower more.
next_mask :
    (i low n b : ℕ)
    → low < 2 ^ i
    → b ≤ 1
    → bit_or (low + 2 ^ i * 2 ^ suc n) (b * 2 ^ i) ≡ (low + 2 ^ i * b) + 2 ^ (i + 1) * 2 ^ n
next_mask i low n b h k =
    ap (λ (t : ℕ). bit_or (low + 2 ^ i * t) (b * 2 ^ i)) (pow-suc 2 n ∙ mul_comm (2 ^ n) 2)
    ∙ (bit_or-bit i low (2 ^ n) b h k ∙ rw pow-next (omega arith))

next_low : (i low b : ℕ) → low < 2 ^ i → b ≤ 1 → low + 2 ^ i * b < 2 ^ (i + 1)
next_low i low zero h k = rw pow-next (omega arith)
next_low i low (suc zero) h k = rw pow-next (omega arith)
next_low i low (suc (suc b)) h k = absurd (omega arith)

mask_loop-suc :
    (n i m : ℕ) (x : Cond) (y : Item) (followers : List Item)
    → cond_of y ≡ some x
    → mask_loop (suc n) i (y ∷ followers) m
      ≡ mask_loop n (i + 1) followers (bit_or m (cond_bit x * 2 ^ i))
unfolding mask_loop
mask_loop-suc n i m x y followers h = rw (h, mask_loop) refl

mask_loop-Follow :
    (conds : List Cond) (i low : ℕ) (followers : List Item)
    → low < 2 ^ i
    → Follow conds followers
    → mask_loop (length conds) i followers (low + 2 ^ i * 2 ^ length conds)
      ≡ ok (low + 2 ^ i * mask_value conds)
mask_loop-Follow [] i low followers h f = unfold mask_loop in refl
mask_loop-Follow (x ∷ conds) i low [] h f = absurd f
mask_loop-Follow (x ∷ conds) i low (y ∷ followers) h f =
    let b = cond_bit x in
    rw
      (
        mask_loop-suc (length conds) i (low + 2 ^ i * 2 ^ length (x ∷ conds)) x y followers f.0,
        next_mask i low (length conds) b h (cond_bit-le x),
      )
      (mask_loop-Follow conds (i + 1) (low + 2 ^ i * b) followers
          (next_low i low b h (cond_bit-le x)) f.1
        ∙ ap ok (rw pow-next (omega arith)))

length-Follow :
    (conds : List Cond) (followers : List Item)
    → Follow conds followers
    → length conds ≤ length followers
length-Follow [] followers f = omega arith
length-Follow (x ∷ conds) [] f = absurd f
length-Follow (x ∷ conds) (y ∷ followers) f = omega (arith, length-Follow conds followers f.1)

-- With followers that begin with these conditions, one for each bit, `encode` computes the mask of
-- the conditions.
pub encode_mask-Follow :
    (conds : List Cond) (followers : List Item)
    → Follow conds followers
    → encode_mask (length conds) followers ≡ ok (mask_value conds)
unfolding encode_mask
encode_mask-Follow conds followers f =
    let fits = length-Follow conds followers f in
    let start : 2 ^ length conds ≡ 0 + 2 ^ 0 * 2 ^ length conds = omega arith in
    let all = mask_loop-Follow conds 0 0 followers (omega arith) f in
    let finish : 0 + 2 ^ 0 * mask_value conds ≡ mask_value conds = omega arith in
    ground (arith, all, ap (λ (t : ℕ). mask_loop (length conds) 0 followers t) start, ap ok finish)
