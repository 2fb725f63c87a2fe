-- ===== src/Isa/Instr/Encode.antt =====
-- `encode_word` fills every operand of the encoding with the digits of its value.
use idli_v.Prelude.{
  ℕ, zero, suc, ◌≤◌, ◌<◌, ◌^◌, ◌≡◌, refl, sym, ap, subst, ◌∙◌, Bool, true, false, List, [], ◌∷◌,
  map, inl, inr, arith, length, Bool-cases, Option, none, some, ok, Result, ◌||◌,
}
use idli_v.Prelude.Bits.{to_bits, length-to_bits, to_bits-AreBits, bit_length_iff}
use idli_v.Isa.Encoding.{Operand, Cell, bit, unused, place, holds, count, operand_order}
use idli_v.Isa.Instr.{
  insert_bits, clear_unused, format_bin, encode_operand, encode_operands, operand_code, get_zero,
  Ops, Item,
}
use idli_v.Isa.Instr.Fill.{
  Shape, same, same_refl, same→eq, field, count-insert_bits, insert_bits-Shape, field-insert_bits,
  count-insert_bits_ne, field-insert_bits_ne,
}

-- A value that an operand of `w` bits takes; no bits take no value.
abbrev pub Fits : ℕ → Option ℕ → Type 0
Fits zero none = Unit {0}
Fits zero (some v) = ⊥
Fits (suc w) none = ⊥
Fits (suc w) (some v) = v < 2 ^ suc w

format_bin-Fits : (w v : ℕ) → v < 2 ^ suc w → format_bin (suc w) v ≡ to_bits (suc w) v
unfolding format_bin
format_bin-Fits w v h =
    ap (λ (n : ℕ). to_bits n v) {y = suc w} (omega (arith, (bit_length_iff (suc w) v).1 h))

-- What one operand does: its own places are filled, and the others stay as they were.
record Filled (k : Operand) (v : Option ℕ) (p cs : List Cell) (result : Result (List Cell))
    : Type 0 where
  out : List Cell
  runs : result ≡ ok out
  shape : Shape p out
  full : count k out ≡ 0
  digits : field k p out ≡ to_bits (count k p) (get_zero v)
  others :
      (l : Operand) → same k l ≡ false → (count l out ≡ count l cs) × (field l p out ≡ field l p cs)

field-none : (k : Operand) (p cs : List Cell) → count k p ≡ 0 → field k p cs ≡ []
field-none k [] cs h = refl
field-none k (x ∷ p) [] h = refl
field-none k (x ∷ p) (y ∷ cs) h = elim (Bool-cases (holds k x)) [
  | inl e ↦ absurd (ground (arith, e))
  | inr e ↦ rw e (field-none k p cs (ground (arith, e)))
]

module _ (k : Operand) (p cs : List Cell) (shape : Shape p cs)
    (open_k : count k cs ≡ count k p) where
  fill_none : count k p ≡ 0 → Filled k none p cs (encode_operand k none cs)
  unfolding encode_operand
  fill_none e = record {
    out = cs;
    runs = refl;
    shape = shape;
    full = open_k ∙ e;
    digits = field-none k p cs e ∙ rw e refl;
    others = λ l h. (refl, refl);
  }

  fill_some :
      (w v : ℕ)
      → count k p ≡ suc w
      → v < 2 ^ suc w
      → Filled k (some v) p cs (encode_operand k (some v) cs)
  fill_some w v e h = record {
    out = insert_bits k (to_bits (suc w) v) cs;
    runs = runs';
    shape = insert_bits-Shape k (to_bits (suc w) v) p cs shape (to_bits-AreBits (suc w) v);
    full = count-insert_bits k (to_bits (suc w) v) cs fits;
    digits = field-insert_bits k (to_bits (suc w) v) p cs shape open_k fits ∙ rw e refl;
    others = λ l g. (
      count-insert_bits_ne k l g (to_bits (suc w) v) cs,
      field-insert_bits_ne k l g (to_bits (suc w) v) p cs shape,
    );
  }
    where
      fits : length (to_bits (suc w) v) ≡ count k cs
      fits = length-to_bits (suc w) v ∙ sym (open_k ∙ e)

      runs' : encode_operand k (some v) cs ≡ ok (insert_bits k (to_bits (suc w) v) cs)
      runs' =
          unfold encode_operand in
          rw (open_k ∙ e, format_bin-Fits w v h) (ground (arith, length-to_bits (suc w) v))

  fill : (w : ℕ) (v : Option ℕ) → count k p ≡ w → Fits w v → Filled k v p cs (encode_operand k v cs)
  fill zero none e h = fill_none e
  fill zero (some v) e h = absurd h
  fill (suc w) none e h = absurd h
  fill (suc w) (some v) e h = fill_some w v e h

abbrev pub elem : Operand → List Operand → Bool
elem l [] = false
elem l (k ∷ ks) = same k l || elem l ks

abbrev pub AreDistinct : List Operand → Type 0
AreDistinct [] = Unit {0}
AreDistinct (k ∷ ks) = (elem k ks ≡ false) × AreDistinct ks

-- All operands are filled in.
pub record Encoded (p : List Cell) (code : Operand → Option ℕ) (result : Result (List Cell))
    : Type 0 where
  pub out : List Cell
  pub runs : result ≡ ok out
  pub shape : Shape p out
  pub full : (k : Operand) → count k out ≡ 0
  pub digits : (k : Operand) → field k p out ≡ to_bits (count k p) (get_zero (code k))

module _ (p : List Cell) (o : Ops) (followers : List Item) (code : Operand → Option ℕ)
    (codes : (k : Operand) → operand_code k o followers ≡ ok (code k))
    (fits : (k : Operand) → Fits (count k p) (code k)) where
  -- An operand that the loop has still to fill in, or has filled in.
  abbrev Progress : Bool → Operand → List Cell → Type 0
  Progress true l cs = count l cs ≡ count l p
  Progress false l cs = (count l cs ≡ 0) × (field l p cs ≡ to_bits (count l p) (get_zero (code l)))

  Progress-keeps :
      (b : Bool) (l : Operand) (cs ds : List Cell)
      → (count l ds ≡ count l cs) × (field l p ds ≡ field l p cs)
      → Progress b l cs
      → Progress b l ds
  Progress-keeps true l cs ds e h = e.0 ∙ h
  Progress-keeps false l cs ds e h = (e.0 ∙ h.0, e.1 ∙ h.1)

  Progress-next :
      (k : Operand) (ks : List Operand) (cs : List Cell) (result : Result (List Cell))
      → elem k ks ≡ false
      → (f : Filled k (code k) p cs result) → ((l : Operand) → Progress (elem l (k ∷ ks)) l cs)
      → (l : Operand) → Progress (elem l ks) l f.out
  Progress-next k ks cs result new f before l = elim (Bool-cases (same k l)) [
    | inl e ↦ subst (λ n. Progress (elem n ks) n f.out) (same→eq k l e) (rw new (f.full, f.digits))
    | inr e ↦ Progress-keeps (elem l ks) l cs f.out (f.others l e) (rw e at (before l))
  ]

  encode_operands-Encoded :
      (ks : List Operand) (cs : List Cell)
      → AreDistinct ks
      → Shape p cs
      → ((l : Operand) → Progress (elem l ks) l cs)
      → Encoded p code (encode_operands ks o followers cs)
  unfolding encode_operands
  encode_operands-Encoded [] cs d shape before = record {
    out = cs;
    runs = refl;
    shape = shape;
    full = λ k. (before k).0;
    digits = λ k. (before k).1;
  }
  encode_operands-Encoded (k ∷ ks) cs d shape before =
      let f = fill k p cs shape (rw same_refl at (before k)) (count k p) (code k) refl (fits k) in
      rw (codes k, f.runs)
        (encode_operands-Encoded ks f.out d.1 f.shape
          (Progress-next k ks cs (encode_operand k (code k) cs) d.0 f before))

-- A cell of an encoding holds a binary digit, if any.
abbrev pub AreCells : List Cell → Type 0
AreCells [] = Unit {0}
AreCells (bit d ∷ p) = (d ≤ 1) × AreCells p
AreCells (x ∷ p) = AreCells p

clear_unused-Shape : (p : List Cell) → AreCells p → Shape p (map clear_unused p)
clear_unused-Shape [] h = tt
clear_unused-Shape (bit d ∷ p) h = ((refl, h.0), clear_unused-Shape p h.1)
clear_unused-Shape (unused ∷ p) h = (omega arith, clear_unused-Shape p h)
clear_unused-Shape (place k ∷ p) h = (refl, clear_unused-Shape p h)

count-clear_unused : (k : Operand) (p : List Cell) → count k (map clear_unused p) ≡ count k p
count-clear_unused k [] = refl
count-clear_unused k (bit d ∷ p) = count-clear_unused k p
count-clear_unused k (unused ∷ p) = count-clear_unused k p
count-clear_unused k (place l ∷ p) = ground (arith, count-clear_unused k p)

elem_order : (k : Operand) → elem k operand_order ≡ true
elem_order Operand.r = refl
elem_order _ = refl

order-AreDistinct : AreDistinct operand_order
order-AreDistinct = (refl, (refl, (refl, (refl, (refl, (refl, (refl, (refl, tt))))))))

-- The loop over all operands fills in the whole encoding.
pub encode_all-Encoded :
    (p : List Cell) (o : Ops) (followers : List Item) (code : Operand → Option ℕ)
    → AreCells p
    → ((k : Operand) → operand_code k o followers ≡ ok (code k))
    → ((k : Operand) → Fits (count k p) (code k))
    → Encoded p code (encode_operands operand_order o followers (map clear_unused p))
encode_all-Encoded p o followers code cells codes fits =
    encode_operands-Encoded p o followers code codes fits operand_order (map clear_unused p)
      order-AreDistinct (clear_unused-Shape p cells) (λ l. rw elem_order (count-clear_unused l p))
