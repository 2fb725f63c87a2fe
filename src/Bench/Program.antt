-- ===== src/Bench/Program.antt =====
-- The program that scripts/tb.py starts both sides with.
use idli_v.Prelude.{
  ℕ, ◌+◌, ◌*◌, ◌%◌, ◌^◌, ◌≤◌, ◌<◌, ◌≡◌, refl, sym, ap, ap₂, subst, ◌∙◌, arith, true, false, List,
  [], ◌∷◌, length, Option, some, ok, parts, ◌==◌, ==→eq, Bool-cases, inl, inr,
}
use idli_v.Sqi
use idli_v.Sqi.{Bytes, backdoor_load, update}
use idli_v.Split.{low_byte, high_byte}
use idli_v.Split.Merge.{low_byte-sum, high_byte-sum, merge_bytes-split}
use idli_v.Sim.State.{init}
use idli_v.Sim.Host.{lookup, load_from}
use idli_v.Bench.{Bench}
use idli_v.Bench.Check.{rtl_word}
use idli_v.Bench.Run.{Config, load_words, loaded, new_bench, scores_of, init_bench}

module _ (addr v : ℕ) (m : Sqi.Memory) where
  backdoor_load_self : addr < 2 ^ 16 → v < 256 → (backdoor_load addr v m).content addr ≡ some v
  unfolding backdoor_load
  backdoor_load_self h k =
      let here : (addr == addr % 2 ^ 16) ≡ true = ground arith in
      let whole : v % 2 ^ 8 ≡ v = omega arith in rw (here, whole) refl

  backdoor_load-below :
      (a : ℕ) → a < addr → addr < 2 ^ 16 → (backdoor_load addr v m).content a ≡ m.content a
  unfolding backdoor_load
  backdoor_load-below a h k =
      let other : (a == addr % 2 ^ 16) ≡ false = ground arith in rw other refl

-- What both memories have at an address.
abbrev BothHave : Sqi.Memory × Sqi.Memory → ℕ → Option ℕ → Option ℕ → Type 0
BothHave m a lo hi = (m.0.content a ≡ lo) × (m.1.content a ≡ hi)

-- A load from an address on changes nothing below it.
load_words-below :
    (addr : ℕ) (bytes : List ℕ) (lo hi : Sqi.Memory) (a : ℕ) {m : Sqi.Memory × Sqi.Memory}
    → load_words addr bytes lo hi ≡ ok m
    → addr * 2 + length bytes ≤ 2 ^ 17
    → a < addr
    → BothHave m a (lo.content a) (hi.content a)
unfolding load_words
load_words-below addr [] lo hi a {m} h fits below =
    let same : (lo, hi) ≡ m = cc h in
    (
      ap (λ (t : Sqi.Memory × Sqi.Memory). t.0.content a) (sym same),
      ap (λ (t : Sqi.Memory × Sqi.Memory). t.1.content a) (sym same),
    )
load_words-below addr (x ∷ []) lo hi a h fits below = absurd (cc h)
load_words-below addr (x ∷ y ∷ rest) lo hi a h fits below =
    let d = x * 256 + y in
    let (l, r) =
      load_words-below (addr + 1) rest (backdoor_load addr (low_byte d) lo)
        (backdoor_load addr (high_byte d) hi) a h (omega (arith, fits)) (omega (arith, below)) in
    (
      l ∙ backdoor_load-below addr (low_byte d) lo a below (omega (arith, fits)),
      r ∙ backdoor_load-below addr (high_byte d) hi a below (omega (arith, fits)),
    )

low_byte-lt : (d : ℕ) → low_byte d < 256
low_byte-lt d = omega (arith, low_byte-sum d)

high_byte-lt : (d : ℕ) → high_byte d < 256
high_byte-lt d = omega (arith, high_byte-sum d)

-- The first word.
load_words-first :
    (addr x y : ℕ) (rest : List ℕ) (lo hi : Sqi.Memory) {m : Sqi.Memory × Sqi.Memory}
    → load_words addr (x ∷ y ∷ rest) lo hi ≡ ok m
    → addr * 2 + length (x ∷ y ∷ rest) ≤ 2 ^ 17
    → BothHave m addr (some (low_byte (x * 256 + y))) (some (high_byte (x * 256 + y)))
unfolding load_words
load_words-first addr x y rest lo hi h fits =
    let d = x * 256 + y in
    let (l, r) =
      load_words-below (addr + 1) rest (backdoor_load addr (low_byte d) lo)
        (backdoor_load addr (high_byte d) hi) addr h (omega (arith, fits)) (omega arith) in
    (
      l ∙ backdoor_load_self addr (low_byte d) lo (omega (arith, fits)) (low_byte-lt d),
      r ∙ backdoor_load_self addr (high_byte d) hi (omega (arith, fits)) (high_byte-lt d),
    )

load_words-lookup :
    (addr : ℕ) (bytes : List ℕ) (lo hi : Sqi.Memory) (a x y : ℕ) {m : Sqi.Memory × Sqi.Memory}
    → load_words addr bytes lo hi ≡ ok m
    → addr * 2 + length bytes ≤ 2 ^ 17
    → lookup a (load_from addr bytes) ≡ some (x ∷ y ∷ [])
    → BothHave m a (some (low_byte (x * 256 + y))) (some (high_byte (x * 256 + y)))
unfolding load_words load_from
load_words-lookup addr [] lo hi a x y h fits found = absurd (cc found)
load_words-lookup addr (b ∷ []) lo hi a x y h fits found = absurd (cc h)
load_words-lookup addr (b ∷ c ∷ rest) lo hi a x y {m} h fits found = elim (Bool-cases (addr == a)) [
  | inl e ↦
      let word : some (b ∷ c ∷ []) ≡ some (x ∷ y ∷ []) = ground (arith, found, e) in
      let high : b ≡ x = cc word in
      let low : c ≡ y = cc word in
      let both = load_words-first addr b c rest lo hi h fits in
      subst
        (λ (t : ℕ). BothHave m t (some (low_byte (x * 256 + y))) (some (high_byte (x * 256 + y))))
        (==→eq addr a e)
        (subst (λ (t : ℕ). BothHave m addr (some (low_byte t)) (some (high_byte t)))
          (ap₂ (λ (s t : ℕ). s * 256 + t) high low) both)
  | inr e ↦
      load_words-lookup (addr + 1) rest (backdoor_load addr (low_byte (b * 256 + c)) lo)
        (backdoor_load addr (high_byte (b * 256 + c)) hi) a x y h (omega (arith, fits))
        (ground (arith, found, e))
]

-- Both sides start with the same program: after the set-up the word that the hardware reads at an
-- address, from the two memories, is the one that the behavioural model has there, for a binary
-- that fits the memories.
pub init_bench-rtl_word :
    (binary : List ℕ) (c : Config) (b : Bench) (a x y : ℕ)
    → init_bench false binary c ≡ ok b
    → length binary ≤ 2 ^ 17
    → x < 256
    → y < 256
    → lookup a b.sim.env.mem ≡ some (x ∷ y ∷ [])
    → rtl_word b a ≡ ok (x * 256 + y)
unfolding init_bench rtl_word scores_of init
init_bench-rtl_word binary c b a x y h fits hx hy found =
    let (m, h1, e) = parts (loaded false binary) (λ m. ok (new_bench false binary c m)) h in
    let same : new_bench false binary c m ≡ b = cc h1 in
    let in_memory = ap (λ (t : Bench). lookup a t.sim.env.mem) same ∙ found in
    let (l, r) =
      load_words-lookup 0 binary Sqi.empty Sqi.empty a x y e (omega (arith, fits)) in_memory in
    subst (λ (t : Bench). rtl_word t a ≡ ok (x * 256 + y)) same
      (rw (l, r) (ap ok (merge_bytes-split (x * 256 + y) (omega (arith, hx, hy)))))
