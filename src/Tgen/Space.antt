-- ===== src/Tgen/Space.antt =====
-- The random addresses of scripts/tgen.py.
use idli_v.Prelude.{
  ℕ, zero, suc, ◌<◌, ◌≤◌, ◌^◌, ◌≡◌, refl, arith, Bool, true, ok, ℤ, pos, ◌+ℤ◌, low16, Bool-cases,
  inl, inr, subst,
}
use idli_v.Tgen.{Random, State, rand_imm, check_space}
use idli_v.Tgen.Make.{rand_addr}

module _ {R : Type 0} (random : Random R) where
  -- The state behind so many choices.
  abbrev pub after : ℕ → State R → State R
  after zero t = t
  after (suc n) t = after n (rand_imm random 0 0xffff t).1

  -- Whether a choice has sixteen free words at this offset.
  abbrev pub has_room : ℤ → State R → Bool
  has_room offset t =
      let x = rand_imm random 0 0xffff t in
      check_space (x.1).used_addrs (low16 (pos (x.0) +ℤ offset)) 16

  -- If one of the choices that the fuel allows has sixteen free words at the offset, then an
  -- address is found, and it has sixteen free words at the offset; nothing gets used.
  pub rand_addr-has_room :
      (n fuel : ℕ) (offset : ℤ) (t : State R)
      → n < fuel
      → has_room offset (after n t) ≡ true
      → (a : ℕ) × (t' : State R) × (rand_addr random fuel offset t ≡ ok (a, t'))
        × (check_space t'.used_addrs (low16 (pos a +ℤ offset)) 16 ≡ true)
        × (t'.used_addrs ≡ t.used_addrs)
  unfolding rand_addr
  rand_addr-has_room n zero offset t h room = absurd (omega arith)
  rand_addr-has_room zero (suc fuel) offset t h room =
      let x = rand_imm random 0 0xffff t in (x.0, x.1, rw room refl, room, refl)
  rand_addr-has_room (suc n) (suc fuel) offset t h room =
      let x = rand_imm random 0 0xffff t in
      elim (Bool-cases (has_room offset t)) [
        | inl e ↦ (x.0, x.1, rw e refl, e, refl)
        | inr e ↦
            let (a, t', found, free, same) =
              rand_addr-has_room n fuel offset (x.1) (omega (arith, h)) room in
            (a, t', rw e found, free, same)
      ]

  -- The address that is found is a choice, and the conditions stay.
  pub rand_addr-small :
      (fuel : ℕ) (offset : ℤ) (t : State R) {a : ℕ} {t' : State R}
      → ((lo hi : ℕ) (r : R)
          → lo ≤ hi
          → (lo ≤ (random.randint lo hi r).0) × ((random.randint lo hi r).0 ≤ hi))
      → rand_addr random fuel offset t ≡ ok (a, t')
      → (a < 2 ^ 16) × (t'.cond ≡ t.cond)
  unfolding rand_addr
  rand_addr-small zero offset t r h = absurd (cc h)
  rand_addr-small (suc fuel) offset t {a} {t'} r h =
      let x = rand_imm random 0 0xffff t in
      elim (Bool-cases (has_room offset t)) [
        | inl e ↦
            let same : ok x ≡ ok (a, t') = rw e at h in
            let value : (x.0) ≡ a = cc same in
            let state : x.1 ≡ t' = cc same in
            (
              omega (arith, (r 0 0xffff t.source (omega arith)).1, value),
              subst (λ (u : State R). u.cond ≡ t.cond) state refl,
            )
        | inr e ↦ rand_addr-small fuel offset (x.1) r (rw e at h)
      ]
