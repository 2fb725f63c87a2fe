-- ===== src/Asm/Image/Write.antt =====
-- The bytes that `encode` of scripts/asm.py writes at an address of the binary.
use idli_v.Prelude.{
  ℕ, ◌+◌, ◌≤◌, ◌≡◌, refl, ◌∙◌, arith, true, List, [], ◌∷◌, some, length, set, get_elem?, length-set,
  get_elem?-set_self, get_elem?-set_ne, ok, ◌⊎◌, inl, inr, ltb,
}
use idli_v.Asm.Image.{write_bytes}

-- The memory has these bytes from the address on.
abbrev pub Holds : List ℕ → ℕ → List ℕ → Type 0
Holds mem addr [] = Unit {0}
Holds mem addr (x ∷ xs) = (get_elem? mem addr ≡ some x) × Holds mem (addr + 1) xs

-- Ranges from an address on, of a length.
abbrev pub Apart : ℕ → ℕ → ℕ → ℕ → Type 0
Apart a m b n = (a + m ≤ b) ⊎ (b + n ≤ a)

Holds-set :
    (mem : List ℕ) (i v addr : ℕ) (xs : List ℕ)
    → Apart i 1 addr (length xs)
    → Holds mem addr xs
    → Holds (set mem i v) addr xs
Holds-set mem i v addr [] apart h = tt
Holds-set mem i v addr (x ∷ xs) apart h = (
  get_elem?-set_ne mem i addr v
        (λ e. elim apart [ inl p ↦ omega (arith, e, p) | inr p ↦ omega (arith, e, p) ])
      ∙ h.0,
  Holds-set mem i v (addr + 1) xs
      (elim apart [ inl p ↦ inl (omega (arith, p)) | inr p ↦ inr (omega (arith, p)) ]) h.1,
)

-- What a write of bytes does to a memory: it has them, and what it had elsewhere.
pub record Wrote (xs : List ℕ) (addr : ℕ) (mem mem' : List ℕ) : Type 0 where
  pub runs : write_bytes xs addr mem ≡ ok mem'
  pub same_length : length mem' ≡ length mem
  pub holds : Holds mem' addr xs
  pub keeps :
      (b : ℕ) (ys : List ℕ)
      → Apart addr (length xs) b (length ys)
      → Holds mem b ys
      → Holds mem' b ys

pub write_bytes-Wrote :
    (xs : List ℕ) (addr : ℕ) (mem : List ℕ)
    → addr + length xs ≤ length mem
    → (mem' : List ℕ) × Wrote xs addr mem mem'
unfolding write_bytes
write_bytes-Wrote [] addr mem h =
    (mem, record { runs = refl; same_length = refl; holds = tt; keeps = λ b ys apart k. k })
write_bytes-Wrote (x ∷ xs) addr mem h =
    let mem1 = set mem addr x in
    let (mem', w) = write_bytes-Wrote xs (addr + 1) mem1 (rw length-set (omega arith)) in
    let here : Holds mem1 addr (x ∷ []) = (get_elem?-set_self mem addr x (omega arith), tt) in
    let test : ltb addr (length mem) ≡ true = ground arith in
    (
      mem',
      record {
        runs = rw test w.runs;
        same_length = w.same_length ∙ length-set mem addr x;
        holds = ((w.keeps addr (x ∷ []) (inr (omega arith)) here).0, w.holds);
        keeps = λ b ys apart k.
            w.keeps b ys
              (elim apart [ inl p ↦ inl (omega (arith, p)) | inr p ↦ inr (omega (arith, p)) ])
              (Holds-set mem addr x b ys
                (elim apart [ inl p ↦ inl (omega (arith, p)) | inr p ↦ inr (omega (arith, p)) ]) k);
      },
    )
