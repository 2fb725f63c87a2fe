-- ===== src/Asm/Image/Size.antt =====
-- The size of the binary of scripts/asm.py: all encodings fit in it.
use idli_v.Prelude.{
  ℕ, zero, suc, ◌+◌, ◌*◌, ◌^◌, ◌≤◌, ◌<◌, ◌≡◌, refl, ap, arith, List, [], ◌∷◌, some, Text, Dict,
  find, values, length, replicate, ok, err, abort, list_eq, Bool-cases, false, ◌>>=◌, inl, inr, max,
  leb,
}
use idli_v.Isa.Instr.{Item}
use idli_v.Asm.{Asm}
use idli_v.Asm.Image
use idli_v.Asm.Image.{write_items, write_bytes, mem_size, max_size, max_of, max_from}
use idli_v.Asm.Image.Chunks.{Chunks, Encodes, FitIn, item_encode-le}

max_from-le : (m : ℕ) (xs : List ℕ) → m ≤ max_from m xs
max_from-le m [] = omega arith
max_from-le m (x ∷ xs) = omega (arith, max_from-le (max m x) xs)

find-max_from :
    (m a : ℕ) (key : Text) (d : Dict ℕ) → find key d ≡ some a → a ≤ max_from m (values d)
find-max_from m a key [] h = absurd (cc h)
find-max_from m a key ((k, b) ∷ rest) h = elim (Bool-cases (list_eq k key)) [
  | inl e ↦
      let same : b ≡ a = ground (arith, e, h) in
      omega (arith, same, max_from-le (max m b) (values rest))
  | inr e ↦ find-max_from (max m b) a key rest (ground (arith, e, h))
]

find-max_of :
    (a top : ℕ) (key : Text) (d : Dict ℕ)
    → max_of (values d) ≡ ok top
    → find key d ≡ some a
    → a ≤ top
find-max_of a top key [] t h = absurd (cc h)
find-max_of a top key ((k, b) ∷ rest) t h =
    let bound : max_from b (values rest) ≡ top = cc t in
    let below : a ≤ max_from (max 0 b) (values rest) = find-max_from 0 a key ((k, b) ∷ rest) h in
    let zero_max : max 0 b ≡ b = ground arith in
    let start = ap (λ (m : ℕ). max_from m (values rest)) zero_max in
    omega (arith, bound, below, start)

pub Encodes-FitIn :
    (addrs : Dict ℕ) (items : Dict Item) (chunks : Chunks) (top : ℕ)
    → max_of (values addrs) ≡ ok top
    → Encodes addrs items chunks
    → FitIn ((top + 2) * 2) chunks
Encodes-FitIn addrs [] [] top t e = tt
Encodes-FitIn addrs [] (c ∷ chunks) top t e = absurd e
Encodes-FitIn addrs (i ∷ items) [] top t e = absurd e
Encodes-FitIn addrs ((prefix, item) ∷ items) ((at, bytes) ∷ chunks) top t
      ((addr, known, place), coded, e) =
    (
      omega (
        arith,
        place,
        find-max_of addr top prefix addrs t known,
        item_encode-le item (values items) coded,
      ),
      Encodes-FitIn addrs items chunks top t e,
    )

pub FitIn-le : (m n : ℕ) (chunks : Chunks) → m ≤ n → FitIn m chunks → FitIn n chunks
FitIn-le m n [] h f = tt
FitIn-le m n ((at, bytes) ∷ chunks) h f = (omega (arith, f.0), FitIn-le m n chunks h f.1)

pub length-replicate : (n v : ℕ) → length (replicate n v) ≡ n
length-replicate zero v = refl
length-replicate (suc n) v = ap suc (length-replicate n v)

pub mem_size-room :
    (top : ℕ) → top + 4 < 2 ^ 16 → (top + 2 ≤ mem_size top) × (leb max_size (mem_size top) ≡ false)
unfolding mem_size
mem_size-room top small = (ground arith, ground arith)

-- When an item has one of the last four words of the address space, `encode` refuses the binary as
-- too large, also when it would have just the size of the memory.
pub encode-full :
    (s : Asm) (top : ℕ)
    → max_of (values s.addrs) ≡ ok top
    → 2 ^ 16 ≤ top + 4
    → Image.encode s ≡ err abort
unfolding Image.encode mem_size
encode-full s top t large = rw (t, ◌>>=◌) (ground arith)
