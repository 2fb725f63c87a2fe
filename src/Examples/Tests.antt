-- ===== src/Examples/Tests.antt =====
-- The test generator at concrete inputs.
use idli_v.Prelude.{
  ℕ, ◌+◌, ◌≡◌, refl, arith, true, List, [], ◌∷◌, ok, pos, ◌+ℤ◌, low16, replicate, Bool, false, not,
  ◌&&◌, if◌then◌else◌, leb, Bool-cases, inl, inr, Option, some, get_elem?, ◌≤◌, ◌<◌, ◌^◌, ◌%◌,
}
use idli_v.Isa.Mnem.{Mnem}
use idli_v.Isa.Instr.{Instruction, cond_t}
use idli_v.Sim.State.{Sim, init}
use idli_v.Tgen.{Random, State, new_state, check_space, free_from}
use idli_v.Tgen.Make.{rand_addr, rand_init}
use idli_v.Tgen.Load.{AllKnown}
use idli_v.Tgen.Operands.{InRange}
use idli_v.Tgen.Final.{HasRoom}
use idli_v.Tgen.Choose.{rand_instr}
use idli_v.Tgen.Generated.{AllKnown-AreKnown, IsGenerated, rand_instr-IsGenerated}
use idli_v.Tgen.Init.{rand_init-AllKnown}
use idli_v.Tgen.Space.{has_room, after, rand_addr-has_room}

-- A source that counts up.
abbrev counting : Random ℕ
counting = record {
  randint = λ lo hi r. (r, r + 1);
  choices = λ ks ws r. (Mnem.add, r);
  choice = λ ks r. (Mnem.b, r);
  choices_tf = λ k r. (replicate k cond_t, r);
}

rand_init-AllKnown_example :
    (is : List Instruction) × ((s : Sim (State ℕ)) × (rand_init counting (init (new_state 9))
        ≡ ok (is, s))
      × AllKnown 16 s.regs
      × (s.pc ≡ 31))
rand_init-AllKnown_example = rand_init-AllKnown counting 9

-- Address 5 is used, so the first choice has no room, and the second one has.
abbrev used_five : State ℕ
used_five = record (new_state 5) { used_addrs = 5 ∷ [] }

room_behind : has_room counting (pos 0) (after counting 1 used_five) ≡ true
unfolding check_space free_from
room_behind = refl

rand_addr-has_room_example :
    (a : ℕ) × (t' : State ℕ) × (rand_addr counting 2 (pos 0) used_five ≡ ok (a, t'))
    × (check_space t'.used_addrs (low16 (pos a +ℤ pos 0)) 16 ≡ true)
    × (t'.used_addrs ≡ 5 ∷ [])
rand_addr-has_room_example =
    rand_addr-has_room counting 1 2 (pos 0) used_five (omega arith) room_behind

-- A source that gives the lower bound, and every other time a number in the upper half of the
-- addresses, if it can.
abbrev halves : Random Bool
halves = record {
  randint = λ lo hi r. (if r && leb (lo + 0x8000) hi then lo + 0x8000 else lo, not r);
  choices = λ ks ws r. (Mnem.stm, r);
  choice = λ ks r. (Mnem.b, r);
  choices_tf = λ k r. (replicate k cond_t, r);
}

halves-InRange : InRange halves
halves-InRange lo hi r h = elim (Bool-cases (r && leb (lo + 0x8000) hi)) [
  | inl e ↦ rw e (ground (arith, h, e))
  | inr e ↦ rw e (ground (arith, h, e))
]

abbrev sevens : List (Option ℕ)
sevens = replicate 16 (some 7)

abbrev seven :
    (r : ℕ)
    → get_elem? sevens r ≡ some (some 7)
    → (v : ℕ) × (get_elem? sevens r ≡ some (some v)) × (v < 2 ^ 16)
seven r e = (7, e, omega arith)

sevens-AllKnown : AllKnown 16 sevens
sevens-AllKnown = (
  seven 15 refl,
  (
    seven 14 refl,
    (
      seven 13 refl,
      (
        seven 12 refl,
        (
          seven 11 refl,
          (
            seven 10 refl,
            (
              seven 9 refl,
              (
                seven 8 refl,
                (
                  seven 7 refl,
                  (
                    seven 6 refl,
                    (
                      seven 5 refl,
                      (
                        seven 4 refl,
                        (seven 3 refl, (seven 2 refl, (seven 1 refl, (seven 0 refl, tt)))),
                      ),
                    ),
                  ),
                ),
              ),
            ),
          ),
        ),
      ),
    ),
  ),
)

room_in_empty : (a : ℕ) → a + 16 ≤ 0xffff → check_space [] a 16 ≡ true
unfolding check_space free_from
room_in_empty a h = ground (arith, h)

abbrev start_of : Bool → ℕ
start_of true = 0x8000
start_of false = 0

halves-has_room :
    (r : Bool) (b : ℕ) (t : State Bool)
    → t.used_addrs ≡ []
    → t.source ≡ r
    → (start_of r + b) % 2 ^ 16 + 16 ≤ 0xffff
    → has_room halves (pos b) t ≡ true
halves-has_room true b t e s h =
    let whole : low16 (pos 0x8000 +ℤ pos b) ≡ (0x8000 + b) % 2 ^ 16 = ground arith in
    rw (e, s, whole) (room_in_empty ((0x8000 + b) % 2 ^ 16) h)
halves-has_room false b t e s h =
    let whole : low16 (pos 0 +ℤ pos b) ≡ (0 + b) % 2 ^ 16 = ground arith in
    rw (e, s, whole) (room_in_empty ((0 + b) % 2 ^ 16) h)

halves-HasRoom :
    HasRoom halves 2 3 sevens halves-InRange (AllKnown-AreKnown 16 sevens sevens-AllKnown) []
halves-HasRoom b t small e = elim (Bool-cases t.source) [
  | inl s ↦ elim (Bool-cases (leb ((0x8000 + b) % 2 ^ 16 + 16) 0xffff)) [
    | inl f ↦ (0, omega arith, halves-has_room true b t e s (ground (arith, f)))
    | inr f ↦ (
      1,
      omega arith,
      halves-has_room false b (after halves 1 t) e (rw s refl) (ground (arith, f, small)),
    )
  ]
  | inr s ↦ elim (Bool-cases (leb (b + 16) 0xffff)) [
    | inl f ↦ (0, omega arith, halves-has_room false b t e s (ground (arith, f, small)))
    | inr f ↦ (
      1,
      omega arith,
      halves-has_room true b (after halves 1 t) e (rw s refl) (ground (arith, f, small)),
    )
  ]
]

abbrev one_pending : State Bool
one_pending = record (new_state true) { cond = cond_t ∷ [] }

rand_instr-IsGenerated_example :
    (i : Instruction) × (t' : State Bool) × (rand_instr halves [] [] 2 3 sevens one_pending
      ≡ ok (i, t'))
    × IsGenerated halves [] [] 3 sevens [] i
    × (i.cond ≡ some cond_t)
    × (t'.used_addrs ≡ [])
rand_instr-IsGenerated_example =
    rand_instr-IsGenerated halves [] [] 0 2 3 sevens one_pending halves-InRange sevens-AllKnown
      (omega arith) refl halves-HasRoom
