-- ===== src/Objdump/Matches.antt =====
-- The search for the mnemonic of a word finds the one that it was encoded from, and no other.
use idli_v.Prelude.{
  ℕ, ◌≡◌, refl, sym, ap, subst, ◌∙◌, Bool, true, List, [], ◌∷◌, ◌⊎◌, inl, inr, arith, ◌==◌, keep,
  keep_ext, bit_and, Bool-cases, ==→eq, eq→==, ◌≤◌, length,
}
use idli_v.Isa.Mnem.{Mnem, mnems}
use idli_v.Isa.Encoding.{opcode, opcode_mask}
use idli_v.Isa.Disjoint.{fits_one, opcode-injective}
use idli_v.Objdump.{matches}

keep-opcode : (k : Mnem) → keep (λ l. opcode l == opcode k) mnems ≡ k ∷ []
unfolding opcode
keep-opcode Mnem.add = refl
keep-opcode _ = refl

fits_same :
    (x : ℕ) (k l : Mnem)
    → bit_and x (opcode_mask k) ≡ opcode k
    → (bit_and x (opcode_mask l) == opcode l) ≡ (opcode l == opcode k)
fits_same x k l h = elim (Bool-cases (bit_and x (opcode_mask l) == opcode l)) [
  | inl e ↦
      let same : k ≡ l = fits_one x k l h (==→eq (bit_and x (opcode_mask l)) (opcode l) e) in
      e ∙ sym (eq→== (opcode l) (opcode k) (ap opcode (sym same)))
  | inr e ↦ elim (Bool-cases (opcode l == opcode k)) [
    | inl f ↦
        let same : k ≡ l = opcode-injective k l (sym (==→eq (opcode l) (opcode k) f)) in
        absurd (ground (arith, subst (λ n. bit_and x (opcode_mask n) ≡ opcode n) same h))
    | inr f ↦ e ∙ sym f
  ]
]

-- A word that fits the encoding of a mnemonic fits that one alone.
pub matches_unique : (x : ℕ) (k : Mnem) → bit_and x (opcode_mask k) ≡ opcode k → matches x ≡ k ∷ []
unfolding matches
matches_unique x k h =
    keep_ext (λ l. bit_and x (opcode_mask l) == opcode l) (λ l. opcode l == opcode k) mnems
      (λ l. fits_same x k l h)
    ∙ keep-opcode k

keep-cases : (p : Mnem → Bool) (ks : List Mnem) → (keep p ks ≡ []) ⊎ ((k : Mnem) × (p k ≡ true))
keep-cases p [] = inl refl
keep-cases p (k ∷ ks) = elim (Bool-cases (p k)) [
  | inl e ↦ inr (k, e)
  | inr e ↦ rw e (keep-cases p ks)
]

matches-cases : (x : ℕ) → (matches x ≡ []) ⊎ ((k : Mnem) × (matches x ≡ k ∷ []))
unfolding matches
matches-cases x = elim (keep-cases (λ l. bit_and x (opcode_mask l) == opcode l) mnems) [
  | inl e ↦ inl e
  | inr found ↦ inr (
    found.0,
    matches_unique x found.0 (==→eq (bit_and x (opcode_mask found.0)) (opcode found.0) found.1),
  )
]

-- No word has more than one candidate mnemonic.
pub length-matches-le : (x : ℕ) → length (matches x) ≤ 1
length-matches-le x = elim (matches-cases x) [
  | inl e ↦ rw e (omega arith)
  | inr found ↦ rw found.1 (omega arith)
]
