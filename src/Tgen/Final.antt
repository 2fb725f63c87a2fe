-- ===== src/Tgen/Final.antt =====
-- The last operand of a branch or a memory operation that scripts/tgen.py makes, which decides on
-- the address.
pub mod Branch
pub mod Indexed
pub mod Block
use idli_v.Prelude.{
  ℕ, zero, suc, ◌+◌, ◌%◌, ◌^◌, ◌≤◌, ◌<◌, ◌≡◌, refl, sym, ap, subst, ◌∙◌, arith, Bool, true, false,
  not, ◌&&◌, ◌||◌, List, [], ◌∷◌, Option, none, some, ℤ, pos, negsuc, ◌+ℤ◌, low16, Result, ok, err,
  exception, inl, inr, Bool-cases, ◌==◌, ==→eq, if◌then◌else◌, get_elem?, ◌>>=◌,
}
use idli_v.Isa.Mnem.{Mnem, starts_with}
use idli_v.Isa.Encoding.{Operand, count, pattern}
use idli_v.Isa.Instr.{Ops, Imm, int, ref, sp, get_op}
use idli_v.Isa.Instr.Encode.{Fits}
use idli_v.Tgen.{Random, State, rand_imm, check_space}
use idli_v.Tgen.Make.{rand_addr}
use idli_v.Tgen.Space.{has_room, after, rand_addr-has_room, rand_addr-small}
use idli_v.Tgen.Pick.{
  is_redirect, mem_op, is_op, is_addr, is_relative, num_regs, reg_value, pc_hit, Draft, pick_imm,
  pick_reg, base_of, check_target, check_block, check_indexed, set_op, indexed_ops, indexed,
}
use idli_v.Tgen.Operands.{Progress, InRange, Kept, ImmOf, Sets, Progress-next, c-Sets, sp-Sets}
use idli_v.Tgen.Operands.Plain.{small_reg}
use idli_v.Tgen.Target.{
  Reaches, reach, given, room, value_of, pre_step, Chosen, ReachesIf, addresses,
}

-- All registers hold 16-bit values.
abbrev pub AreKnown : List (Option ℕ) → Type 0
AreKnown regs = (r : ℕ) → r < 16 → (v : ℕ) × (get_elem? regs r ≡ some (some v)) × (v < 2 ^ 16)

pub imm_none : (c : Option ℕ) (z : Option Imm) → c ≡ none → ImmOf c z → z ≡ none
imm_none none none n h = refl
imm_none none (some (int (pos v))) n h = absurd h
imm_none none (some (int (negsuc v))) n h = absurd h
imm_none none (some (ref v)) n h = absurd h
imm_none (some x) z n h = absurd (cc n)

module _ {R : Type 0} (random : Random R) (fuel pc : ℕ) (regs : List (Option ℕ))
    (in_range : InRange random) (known : AreKnown regs) where
  -- Within the fuel a choice has sixteen free words at any base.
  abbrev pub HasRoom : List ℕ → Type 0
  HasRoom used =
      (b : ℕ) (t : State R)
      → b < 2 ^ 16
      → t.used_addrs ≡ used
      → (n : ℕ) × (n < fuel) × (has_room random (pos b) (after random n t) ≡ true)

  -- What an immediate address becomes.
  record WithAddr (base : ℕ) (d : Draft) (t : State R) : Type 0 where
    imm : ℕ
    state : State R
    runs :
        pick_imm pc regs random fuel true d t
        ≡ ok (record d.ops { imm = some (int (pos imm)) }, state)
    small : imm < 2 ^ 16
    free : check_space t.used_addrs ((base + imm) % 2 ^ 16) 16 ≡ true
    kept : Kept t state

  pick_imm-WithAddr :
      (base : ℕ) (k : Mnem) (o : Ops) (t : State R)
      → base < 2 ^ 16
      → HasRoom t.used_addrs
      → WithAddr base (record { mnem = k; ops = o; is_imm = true; addr_base = pos base }) t
  unfolding pick_imm
  pick_imm-WithAddr base k o t small h =
      let (n, enough, found) = h base t small refl in
      let (a, t', runs, free, same) = rand_addr-has_room random n fuel (pos base) t enough found in
      let (lo, conds) = rand_addr-small random fuel (pos base) t in_range runs in
      let whole : low16 (pos a +ℤ pos base) ≡ (base + a) % 2 ^ 16 = ground arith in
      record {
        imm = a;
        state = t';
        runs = rw runs refl;
        small = lo;
        free = rw (same, whole) at free;
        kept = (same, conds);
      }

  -- The steps of a round for an operand that holds an address.
  module _ (l : Operand) (k : Mnem) (o : Ops) (t : State R) (addressed : is_addr k l ≡ true) where
    abbrev pub draft : ℤ → Draft
    draft base =
        let v = (rand_imm random 0 15 t).0 in
        record {
          mnem = k;
          ops = set_op l v o;
          is_imm = is_op l (some Operand.c) && v == sp;
          addr_base = base;
        }

    pub pick_reg-steps :
        (base : ℤ) (d1 d2 d3 : Draft) (y : Ops × State R)
        → base_of pc regs k (set_op l (rand_imm random 0 15 t).0 o) ≡ ok base
        → check_target pc regs t.used_addrs l (draft base) ≡ ok d1
        → check_block pc regs t.used_addrs true l d1 ≡ ok d2
        → check_indexed pc regs t.used_addrs true l d2 ≡ ok d3
        → pick_imm pc regs random fuel true d3 (rand_imm random 0 15 t).1 ≡ ok y
        → pick_reg pc regs random fuel l k o t ≡ ok (d3.mnem, y.0, y.1)
    unfolding pick_reg
    pick_reg-steps base d1 d2 d3 y b h1 h2 h3 h4 = rw (addressed, b, h1, h2, h3, h4) refl

  pub reg_value-known : (v : ℕ) → v < 16 → (w : ℕ) × (reg_value regs (some v) ≡ ok w) × (w < 2 ^ 16)
  reg_value-known v h = let (w, e, small) = known v h in (w, rw e refl, small)

  pub check_target-no :
      (used : List ℕ) (l : Operand) (d : Draft)
      → is_redirect d.mnem ≡ false
      → check_target pc regs used l d ≡ ok d
  unfolding check_target
  check_target-no used l d h = elim (Bool-cases d.is_imm) [
    | inl e ↦ rw e refl
    | inr e ↦ rw (e, h) refl
  ]

  pub check_indexed-no :
      (used : List ℕ) (l : Operand) (d : Draft)
      → d.is_imm ≡ true
      → check_indexed pc regs used true l d ≡ ok d
  unfolding check_indexed
  check_indexed-no used l d h = elim (Bool-cases (is_op Operand.c (mem_op d.mnem))) [
    | inl e ↦ rw (e, h) refl
    | inr e ↦ rw e refl
  ]

  -- A round that ends with an immediate address.
  pub imm_outcome :
      (l : Operand) (k k' : Mnem) (o o' : Ops) (t : State R) (base : ℕ) (base0 : ℤ) (d1 d2 : Draft)
      → (addressed : is_addr k l ≡ true) → HasRoom t.used_addrs
      → base < 2 ^ 16
      → base_of pc regs k (set_op l (rand_imm random 0 15 t).0 o) ≡ ok base0
      → check_target pc regs t.used_addrs l (draft l k o t addressed base0) ≡ ok d1
      → check_block pc regs t.used_addrs true l d1 ≡ ok d2
      → check_indexed pc regs t.used_addrs true l d2
        ≡ ok (record { mnem = k'; ops = o'; is_imm = true; addr_base = pos base })
      → ((v : ℕ) → v < 2 ^ 16 → Progress k' [] (record o' { imm = some (int (pos v)) }))
      → addresses k' ≡ true
      → ((v : ℕ)
          → reach pc regs k' (record o' { imm = some (int (pos v)) }) ≡ ok ((base + v) % 2 ^ 16, 1))
      → Chosen pc regs t (pick_reg pc regs random fuel l k o t)
  imm_outcome l k k' o o' t base base0 d1 d2 addressed h small b h1 h2 h3 p adr r =
      let d : Draft = record { mnem = k'; ops = o'; is_imm = true; addr_base = pos base } in
      let y = pick_imm-WithAddr base k' o' (rand_imm random 0 15 t).1 small h in
      record {
        mnem = k';
        ops = record o' { imm = some (int (pos y.imm)) };
        state = y.state;
        runs = pick_reg-steps l k o t addressed base0 d1 d2 d _ b h1 h2 h3 y.runs;
        progress = p y.imm y.small;
        kept = y.kept;
        reaches = rw adr (record {
          first = (base + y.imm) % 2 ^ 16;
          words = 1;
          is = r y.imm;
          free = y.free;
          apart = λ z. absurd (cc z);
        });
      }
