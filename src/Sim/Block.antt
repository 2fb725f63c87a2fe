-- ===== src/Sim/Block.antt =====
-- LDM and STM of scripts/sim.py: which registers the loop of `_ldstm` reaches, and where in memory.
use idli_v.Prelude.{
  ℕ, zero, suc, ◌+◌, ◌-◌, ◌%◌, ◌^◌, ◌≤◌, ◌<◌, ◌≡◌, sym, refl, ap, ap₂, ◌∙◌, arith, false, true,
  List, [], ◌∷◌, ◌==◌,
}
use idli_v.Isa.Mnem.{Mnem}
use idli_v.Sim.State.{Callback, M, pure, ◌>>◌}
use idli_v.Sim.Exec.{ldstm_one, ldstm_loop}

-- A register and an address for each step, from step `i` on, and `d` steps after that.
abbrev pub slots : (d i r a : ℕ) → List (ℕ × ℕ)
slots zero i r a = ((r + i) % 16, (a + i) % 2 ^ 16) ∷ []
slots (suc d) i r a = ((r + i) % 16, (a + i) % 2 ^ 16) ∷ slots d (i + 1) r a

module _ {E : Type 0} (cb : Callback E) (k : Mnem) where
  -- The single transfers in their order.
  abbrev pub each : List (ℕ × ℕ) → M E (Unit {0})
  each [] = pure tt
  each ((r, a) ∷ rest) = ldstm_one cb k r a >> each rest

  loop-slots :
      (d fuel i r s a : ℕ)
      → d ≤ fuel
      → d < 16
      → (r + i + d) % 16 ≡ s
      → ldstm_loop cb (suc fuel) k ((r + i) % 16) s ((a + i) % 2 ^ 16) ≡ each (slots d i r a)
  unfolding ldstm_loop
  loop-slots zero fuel i r s a h w e =
      let last : ((r + i) % 16 == s) ≡ true = ground (arith, e) in rw last refl
  loop-slots (suc d) zero i r s a h w e = absurd (omega arith)
  loop-slots (suc d) (suc fuel) i r s a h w e =
      let more : ((r + i) % 16 == s) ≡ false = ground (arith, e) in
      let next_r : ((r + i) % 16 + 1) % 16 ≡ (r + (i + 1)) % 16 = omega arith in
      let next_a : ((a + i) % 2 ^ 16 + 1) % 2 ^ 16 ≡ (a + (i + 1)) % 2 ^ 16 = omega arith in
      let rest = loop-slots d fuel (i + 1) r s a (omega arith) (omega arith) (omega arith) in
      rw (more, next_r, next_a)
        (ap (λ n. ldstm_one cb k ((r + i) % 16) ((a + i) % 2 ^ 16) >> n) rest)

  -- The sixteen rounds of fuel are enough for LDM and STM from register `r` to register `s`: the
  -- loop transfers each register from the first to the last, wrapping behind register 15, and no
  -- other, at consecutive addresses modulo 2^16, in this order.
  pub ldstm_loop-slots :
      (r s a : ℕ)
      → r < 16
      → s < 16
      → a < 2 ^ 16
      → ldstm_loop cb 16 k r s a ≡ each (slots ((s + 16 - r) % 16) 0 r a)
  ldstm_loop-slots r s a h l w =
      let first_r : (r + 0) % 16 ≡ r = omega arith in
      let first_a : (a + 0) % 2 ^ 16 ≡ a = omega arith in
      let all =
        loop-slots ((s + 16 - r) % 16) 15 0 r s a (omega arith) (omega arith) (omega arith) in
      sym (ap₂ (λ (x y : ℕ). ldstm_loop cb 16 k x s y) first_r first_a) ∙ all
