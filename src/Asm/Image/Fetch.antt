-- ===== src/Asm/Image/Fetch.antt =====
-- The binary of scripts/asm.py in the memory of the simulator.
use idli_v.Prelude.{
  ℕ, zero, suc, ◌+◌, ◌*◌, ◌%◌, ◌≤◌, ◌≡◌, refl, sym, ap, ◌∙◌, subst, arith, true, false, List, [],
  ◌∷◌, ◌++◌, Option, some, none, length, get_elem?, ok, ◌>>=◌, inl, inr, Bool-cases, ◌==◌, ℤ,
}
use idli_v.Isa.Instr.{Instruction, Item, instr, Cond, encode}
use idli_v.Objdump.{decode, decode_item, decode_loop, Decoded}
use idli_v.Objdump.RoundTrip.{IsEncodable, decoded, decode-encode}
use idli_v.Sim.Host.{Host, lookup, load_from, load, or_empty, fetch, first_item}
use idli_v.Asm.Image.Write.{Holds}
use idli_v.Asm.Image.Chunks.{AreWords, encode-AreWords}

-- The byte two places further on.
get_elem?-pair :
    (b c : ℕ) (rest : List ℕ) (i j : ℕ) {v : ℕ}
    → i ≡ j + 2
    → get_elem? (b ∷ c ∷ rest) i ≡ some v
    → get_elem? rest j ≡ some v
get_elem?-pair b c rest zero j e h = absurd (omega (arith, e))
get_elem?-pair b c rest (suc zero) j e h = absurd (omega (arith, e))
get_elem?-pair b c rest (suc (suc i)) j e h =
    let same : j ≡ i = omega (arith, e) in ap (get_elem? rest) same ∙ h

late : (b i : ℕ) {v : ℕ} → 2 ≤ i → get_elem? (b ∷ []) i ≡ some v → get_elem? (b ∷ 0 ∷ []) i ≡ some v
late b zero h e = absurd (omega arith)
late b (suc zero) h e = absurd (omega arith)
late b (suc (suc i)) h e = e

-- The entry at an address, from what the binary has there.
lookup-load_from :
    (i k a : ℕ) (binary : List ℕ) {x y : ℕ}
    → a ≡ i + k
    → get_elem? binary (k * 2) ≡ some x
    → get_elem? binary (k * 2 + 1) ≡ some y
    → lookup a (load_from i binary) ≡ some (x ∷ y ∷ [])
unfolding load_from
lookup-load_from i k a [] e hx hy = absurd (cc hx)
lookup-load_from i zero a (b ∷ []) e hx hy = absurd (cc hy)
lookup-load_from i (suc k) a (b ∷ []) e hx hy = absurd (
    ground (
      arith,
      get_elem?-pair b 0 [] (suc k * 2) (k * 2) (omega arith) (late b (suc k * 2) (omega arith) hx),
    ))
lookup-load_from i zero a (b ∷ c ∷ rest) {x} {y} e hx hy =
    let bx : b ≡ x = cc hx in let cy : c ≡ y = cc hy in rw (bx, cy) (ground (arith, e))
lookup-load_from i (suc k) a (b ∷ c ∷ rest) e hx hy =
    let other : (i == a) ≡ false = ground (arith, e) in
    rw other (
      lookup-load_from (i + 1) k a rest (omega (arith, e))
        (get_elem?-pair b c rest (suc k * 2) (k * 2) (omega arith) hx)
        (get_elem?-pair b c rest (suc k * 2 + 1) (k * 2 + 1) (omega arith) hy))

-- What is behind a word in the memory is a word, or nothing.
IsWord : Option (List ℕ) → Type 0
IsWord none = Unit {0}
IsWord (some bytes) = length bytes ≡ 2

load_from-IsWord : (i a : ℕ) (binary : List ℕ) → IsWord (lookup a (load_from i binary))
unfolding load_from IsWord
load_from-IsWord i a [] = tt
load_from-IsWord i a (b ∷ []) = tt
load_from-IsWord i a (b ∷ c ∷ rest) = elim (Bool-cases (i == a)) [
  | inl e ↦ rw e refl
  | inr e ↦ rw e (load_from-IsWord (i + 1) a rest)
]

or_empty-even : (v : Option (List ℕ)) → IsWord v → length (or_empty v) % 2 ≡ 0
unfolding IsWord
or_empty-even none h = refl
or_empty-even (some bytes) h = rw h refl

-- The first instruction of a whole number of words.
decode-first :
    (x : ℕ) (xs : List ℕ) (d : Decoded)
    → length (x ∷ xs) % 2 ≡ 0
    → decode_item (x ∷ xs) [] ≡ ok d
    → decode (x ∷ xs) (some 1) ≡ ok (d.item ∷ [])
unfolding decode decode_loop
decode-first x xs d even h =
    let test : (length (x ∷ xs) % 2 == 0) ≡ true = ground arith in rw test (rw (h, ◌>>=◌) refl)

fetch-first :
    (a x y : ℕ) (h : Host) (d : Decoded)
    → lookup a h.mem ≡ some (x ∷ y ∷ [])
    → length (or_empty (lookup (a + 1) h.mem)) % 2 ≡ 0
    → decode_item (x ∷ y ∷ or_empty (lookup (a + 1) h.mem)) [] ≡ ok d
    → fetch a h ≡ ok (d.item, h)
fetch-first a x y h d found even e =
    rw (fetch, found)
      (ap (λ r. first_item r h)
        (decode-first x (y ∷ or_empty (lookup (a + 1) h.mem)) d (omega (arith, even)) e))

-- What the simulator decodes at an address at which the binary has these words.
fetch-AreWords :
    (a : ℕ) (binary : List ℕ) (input : List ℤ) (bytes : List ℕ) (item : Item)
    → AreWords bytes
    → Holds binary (a * 2) bytes
    → ((rest : List ℕ) → (d : Decoded) × (decode_item (bytes ++ rest) [] ≡ ok d) × (d.item ≡ item))
    → fetch a (load binary input) ≡ ok (item, load binary input)
unfolding load
fetch-AreWords a binary input bytes item (hi, lo, inl e) held decodes =
    let holds = subst (Holds binary (a * 2)) e held in
    let memory = load_from 0 binary in
    let found = lookup-load_from 0 a a binary (omega arith) holds.0 holds.1.0 in
    let next = or_empty (lookup (a + 1) memory) in
    let (d, runs, same) = decodes next in
    fetch-first a hi lo (load binary input) d found
      (or_empty-even (lookup (a + 1) memory) (load_from-IsWord 0 (a + 1) binary))
      (ap (λ (t : List ℕ). decode_item (t ++ next) []) (sym e) ∙ runs)
    ∙ ap (λ t. ok (t, load binary input)) same
fetch-AreWords a binary input bytes item (hi, lo, inr (x, y, e)) held decodes =
    let holds = subst (Holds binary (a * 2)) e held in
    let memory = load_from 0 binary in
    let found = lookup-load_from 0 a a binary (omega arith) holds.0 holds.1.0 in
    let place : a * 2 + 1 + 1 ≡ (a + 1) * 2 = omega arith in
    let more = subst (λ (t : ℕ). Holds binary t (x ∷ y ∷ [])) place holds.1.1 in
    let behind = lookup-load_from 0 (a + 1) (a + 1) binary (omega arith) more.0 more.1.0 in
    let (d, runs, same) = decodes [] in
    fetch-first a hi lo (load binary input) d found
      (or_empty-even (lookup (a + 1) memory) (load_from-IsWord 0 (a + 1) binary))
      (ap (λ (v : Option (List ℕ)). decode_item (hi ∷ lo ∷ or_empty v) []) behind
        ∙ (ap (λ (t : List ℕ). decode_item (t ++ []) []) (sym e) ∙ runs))
    ∙ ap (λ t. ok (t, load binary input)) same

-- The simulator fetches what the assembler wrote: when a binary has the encoding of an encodable
-- instruction at an address, the host that loads the binary fetches this instruction there, with
-- the mask of its followers, whatever else the binary holds.
pub fetch-encode :
    (a : ℕ) (binary : List ℕ) (input : List ℤ) (i : Instruction) (conds : List Cond)
    (followers : List Item) {bytes : List ℕ}
    → IsEncodable i conds followers
    → encode i followers ≡ ok bytes
    → Holds binary (a * 2) bytes
    → fetch a (load binary input) ≡ ok (instr (decoded i conds []), load binary input)
fetch-encode a binary input i conds followers {bytes} h e held =
    let (bytes', coded, decodes) = decode-encode i conds followers h in
    let same : bytes' ≡ bytes = cc (sym coded ∙ e) in
    fetch-AreWords a binary input bytes (instr (decoded i conds [])) (encode-AreWords i followers e)
      held
      (λ rest.
        (_, ap (λ (t : List ℕ). decode_item (t ++ rest) []) (sym same) ∙ decodes [] rest, refl))
