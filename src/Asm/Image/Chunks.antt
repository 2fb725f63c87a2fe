-- ===== src/Asm/Image/Chunks.antt =====
-- What `encode` of scripts/asm.py writes: the encodings of the items with their places, and the
-- words of an encoding.
use idli_v.Prelude.{
  ℕ, ◌+◌, ◌-◌, ◌*◌, ◌/◌, ◌%◌, ◌^◌, ◌≤◌, ◌≡◌, sym, ap, ◌∙◌, arith, List, [], ◌∷◌, ◌++◌, Option, some,
  none, Dict, find, values, length, ok, Result, parts, if_parts, struct_error, ◌>>=◌, ◌⊎◌, inl, inr,
  ltb, ℤ, pos, negsuc,
}
use idli_v.Isa.Instr.{
  Instruction, Item, instr, raw, Imm, int, ref, encode, item_encode, encode_word, encode_imm,
  pack_u16, pack_i16,
}
use idli_v.Asm.Image.Write.{Holds, Apart}

-- The items' encodings with their addresses in the binary, in bytes.
abbrev pub Chunks : Type 0
Chunks = List (ℕ × List ℕ)

abbrev pub Encodes : Dict ℕ → Dict Item → Chunks → Type 0
Encodes addrs [] [] = Unit {0}
Encodes addrs [] (c ∷ chunks) = ⊥
Encodes addrs (i ∷ items) [] = ⊥
Encodes addrs ((prefix, item) ∷ items) ((at, bytes) ∷ chunks) =
    ((addr : ℕ) × (find prefix addrs ≡ some addr) × (at ≡ addr * 2))
    × (item_encode item (values items) ≡ ok bytes)
    × Encodes addrs items chunks

abbrev pub ApartFrom : ℕ → List ℕ → Chunks → Type 0
ApartFrom at bytes [] = Unit {0}
ApartFrom at bytes ((at', bytes') ∷ chunks) =
    Apart at' (length bytes') at (length bytes) × ApartFrom at bytes chunks

-- No two of them overlap.
abbrev pub AreApart : Chunks → Type 0
AreApart [] = Unit {0}
AreApart ((at, bytes) ∷ chunks) = ApartFrom at bytes chunks × AreApart chunks

abbrev pub FitIn : ℕ → Chunks → Type 0
FitIn size [] = Unit {0}
FitIn size ((at, bytes) ∷ chunks) = (at + length bytes ≤ size) × FitIn size chunks

abbrev pub AllHeld : List ℕ → Chunks → Type 0
AllHeld mem [] = Unit {0}
AllHeld mem ((at, bytes) ∷ chunks) = Holds mem at bytes × AllHeld mem chunks

-- One word, or two.
abbrev pub AreWords : List ℕ → Type 0
AreWords bytes =
    (hi : ℕ) × (lo : ℕ) × ((bytes ≡ hi ∷ lo ∷ [])
      ⊎ ((x : ℕ) × (y : ℕ) × (bytes ≡ hi ∷ lo ∷ x ∷ y ∷ [])))

abbrev IsWord : List ℕ → Type 0
IsWord bytes = (hi : ℕ) × (lo : ℕ) × (bytes ≡ hi ∷ lo ∷ [])

pack_u16-IsWord : (n : ℕ) {bytes : List ℕ} → pack_u16 n ≡ ok bytes → IsWord bytes
unfolding pack_u16
pack_u16-IsWord n h = (
  n / 256,
  n % 256,
  cc (if_parts (ltb n (2 ^ 16)) (ok ((n / 256) ∷ (n % 256) ∷ [])) struct_error h),
)

pack_i16-IsWord : (z : ℤ) {bytes : List ℕ} → pack_i16 z ≡ ok bytes → IsWord bytes
unfolding pack_i16
pack_i16-IsWord (pos n) h =
    pack_u16-IsWord n (if_parts (ltb n (2 ^ 15)) (pack_u16 n) struct_error h)
pack_i16-IsWord (negsuc n) h =
    let m = 2 ^ 16 - 1 - n in
    pack_u16-IsWord m (if_parts (ltb n (2 ^ 15)) (pack_u16 m) struct_error h)

add_imm :
    (hi lo : ℕ) (v : Option Imm) {imm bytes : List ℕ}
    → encode_imm v ≡ ok imm
    → (hi ∷ lo ∷ []) ++ imm ≡ bytes
    → AreWords bytes
add_imm hi lo none h e = (hi, lo, inl cc)
add_imm hi lo (some (ref t)) h e = absurd (cc h)
add_imm hi lo (some (int z)) h e =
    let (x, y, two) = pack_i16-IsWord z h in
    (hi, lo, inr (x, y, sym e ∙ ap (λ (t : List ℕ). hi ∷ lo ∷ t) two))

pub encode-AreWords :
    (i : Instruction) (followers : List Item) {bytes : List ℕ}
    → encode i followers ≡ ok bytes
    → AreWords bytes
unfolding encode
encode-AreWords i followers {bytes} h =
    let finish : List ℕ → Result (List ℕ) =
      λ out. encode_imm i.ops.imm >>= λ imm. ok (out ++ imm) in
    let (word, h1, w) = parts (encode_word i followers) (λ word. pack_u16 word >>= finish) h in
    let (out, h2, o) = parts (pack_u16 word) finish h1 in
    let (imm, h3, m) = parts (encode_imm i.ops.imm) (λ imm. ok (out ++ imm)) h2 in
    let (hi, lo, two) = pack_u16-IsWord word o in
    let same : out ++ imm ≡ bytes = cc h3 in
    add_imm hi lo i.ops.imm m (ap (λ (t : List ℕ). t ++ imm) (sym two) ∙ same)

pub item_encode-le :
    (item : Item) (followers : List Item) {bytes : List ℕ}
    → item_encode item followers ≡ ok bytes
    → length bytes ≤ 4
unfolding item_encode
item_encode-le (instr i) followers h =
    let (hi, lo, words) = encode-AreWords i followers h in
    elim words [ inl e ↦ rw e (omega arith) | inr (x, y, e) ↦ rw e (omega arith) ]
item_encode-le (raw d) followers h = let (hi, lo, e) = pack_i16-IsWord d h in rw e (omega arith)
