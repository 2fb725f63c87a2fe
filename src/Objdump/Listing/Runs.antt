-- ===== src/Objdump/Listing/Runs.antt =====
-- The groups that `merge_same` of scripts/objdump.py counts.
use idli_v.Prelude.{
  ℕ, zero, suc, ◌+◌, ◌*◌, ◌≡◌, refl, sym, ap, subst, ◌∙◌, arith, List, [], ◌∷◌, ◌++◌, Text, list_eq,
  list_eq→eq, ok, Bool-cases, inl, inr,
}
use native.Mathlib.Nat.{mul-suc}
use idli_v.Objdump.Listing.{Parsed, Group, open_group, count_from, count_lines}

-- The lines that a count stands for: `left` of them, from an address on.
abbrev pub repeated : ℕ → ℕ → ℕ → Text → List Parsed
repeated zero addr size value = []
repeated (suc left) addr size value =
    record { addr = addr; value = value; size = size } ∷ repeated left (addr + size) size value

abbrev pub expand : List Group → List Parsed
expand [] = []
expand (g ∷ gs) = repeated g.count g.addr g.size g.value ++ expand gs

-- Lines one behind the other from an address on, whose sizes are those of their texts.
abbrev pub AreInOrder : (Text → ℕ) → ℕ → List Parsed → Type 0
AreInOrder size_of addr [] = Unit {0}
AreInOrder size_of addr (p ∷ ps) =
    (p.addr ≡ addr) × (p.size ≡ size_of p.value) × AreInOrder size_of (addr + p.size) ps

-- One line more at the end.
repeated-suc :
    (n addr size : ℕ) (value : Text) (rest : List Parsed)
    → repeated (suc n) addr size value ++ rest
      ≡ repeated n addr size value
        ++ record { addr = addr + size * n; value = value; size = size } ∷ rest
repeated-suc zero addr size value rest =
    let here : addr ≡ addr + size * 0 = omega arith in
    ap (λ (t : ℕ). record { addr = t; value = value; size = size } ∷ rest) here
repeated-suc (suc n) addr size value rest =
    let there : addr + size + size * n ≡ addr + size * suc n = omega (arith, mul-suc size n) in
    ap (◌∷◌ (record { addr = addr; value = value; size = size })) (
      repeated-suc n (addr + size) size value rest
      ∙ ap
          (λ (t : ℕ).
            repeated n (addr + size) size value
            ++ record { addr = t; value = value; size = size } ∷ rest)
          there)

-- The groups of the lines behind an open one, when the lines go on behind it.
expand-count_from :
    (size_of : Text → ℕ) (g : Group) (ps : List Parsed)
    → g.size ≡ size_of g.value
    → AreInOrder size_of (g.addr + g.size * g.count) ps
    → expand (count_from g ps) ≡ repeated g.count g.addr g.size g.value ++ ps
unfolding count_from
expand-count_from size_of g [] s h = refl
expand-count_from size_of g (p ∷ ps) s (a, z, h) = elim (Bool-cases (list_eq p.value g.value)) [
  | inl e ↦
      let text = list_eq→eq p.value g.value e in
      let size : p.size ≡ g.size = z ∙ (ap size_of text ∙ sym s) in
      let more : g.count + 1 ≡ suc g.count = omega arith in
      let behind : g.addr + g.size * g.count + p.size ≡ g.addr + g.size * (g.count + 1) =
        ap (λ (t : ℕ). g.addr + g.size * g.count + t) size
        ∙ (omega (arith, mul-suc g.size g.count)
            ∙ ap (λ (t : ℕ). g.addr + g.size * t) (sym more)) in
      let next : Parsed = record {
        addr = g.addr + g.size * g.count;
        value = g.value;
        size = g.size;
      } in
      let same : next ≡ p = λ i. record { addr = sym a i; value = sym text i; size = sym size i } in
      rw e (
        expand-count_from size_of (record g { count = g.count + 1 }) ps s
          (subst (λ (t : ℕ). AreInOrder size_of t ps) behind h)
        ∙ (ap (λ (n : ℕ). repeated n g.addr g.size g.value ++ ps) more
            ∙ (repeated-suc g.count g.addr g.size g.value ps
                ∙ ap (λ (q : Parsed). repeated g.count g.addr g.size g.value ++ q ∷ ps) same)))
  | inr e ↦
      let first : p.addr + p.size ≡ p.addr + p.size * 1 = omega arith in
      let behind = ap (λ (t : ℕ). t + p.size) (sym a) ∙ first in
      rw e (
        ap (λ (t : List Parsed). repeated g.count g.addr g.size g.value ++ t)
          (expand-count_from size_of (open_group p) ps z
            (subst (λ (t : ℕ). AreInOrder size_of t ps) behind h)))
]

-- Counting loses nothing: for lines one behind the other, whose sizes are those of their texts,
-- the groups stand for just these lines, each with its address, text and size.
pub expand-count_lines :
    (size_of : Text → ℕ) (addr : ℕ) (p : Parsed) (ps : List Parsed)
    → AreInOrder size_of addr (p ∷ ps)
    → (gs : List Group) × (count_lines (p ∷ ps) ≡ ok gs) × (expand gs ≡ p ∷ ps)
unfolding count_lines
expand-count_lines size_of addr p ps (a, z, h) =
    let behind : addr + p.size ≡ p.addr + p.size * 1 = omega (arith, a) in
    (
      count_from (open_group p) ps,
      refl,
      expand-count_from size_of (open_group p) ps z
          (subst (λ (t : ℕ). AreInOrder size_of t ps) behind h),
    )
