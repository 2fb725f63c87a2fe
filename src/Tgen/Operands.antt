-- ===== src/Tgen/Operands.antt =====
-- The operands of an encoding while the loop of `rand_instr` of scripts/tgen.py chooses them.
pub mod Plain
use idli_v.Prelude.{
  negsuc, ℕ, zero, suc, ◌+◌, ◌≤◌, ◌<◌, ◌^◌, ◌≡◌, refl, sym, ap, subst, ◌∙◌, arith, Bool, true,
  false, not, ◌&&◌, ◌||◌, List, [], ◌∷◌, Option, none, some, pos, ok, Result, inl, inr, Bool-cases,
  ◌==◌, ==→eq, if◌then◌else◌, all, all-get_elem?, get_elem?, ◌>>=◌,
}
use idli_v.Isa.Mnem.{Mnem}
use idli_v.Isa.Encoding.{Operand, count, pattern, operand_order}
use idli_v.Isa.Instr.{Ops, Imm, int, ref, no_ops, sp, get_op}
use idli_v.Isa.Instr.Fill.{same, same→eq, same_refl}
use idli_v.Isa.Instr.Encode.{Fits, elem, AreDistinct}
use idli_v.Tgen.{Random, State, rand_imm}
use idli_v.Tgen.Pick.{
  is_redirect, mem_op, is_addr, is_op, op_names, set_op, pick_reg, pick_op, pick_ops, base_of,
  check_target, check_block, check_indexed, pick_imm,
}

-- The bits that an encoding has for an operand that it names.
abbrev pub width : Operand → ℕ
width Operand.n = 2
width Operand.m = 8
width _ = 4

abbrev named_width : Mnem → Operand → Bool
named_width k l = count l (pattern k) == (if elem l (op_names k) then width l else 0)

abbrev order_index : Operand → ℕ
order_index Operand.r = 0
order_index Operand.s = 1
order_index Operand.a = 2
order_index Operand.b = 3
order_index Operand.n = 4
order_index Operand.c = 5
order_index Operand.m = 6
order_index Operand.j = 7

at_order_index : (l : Operand) → get_elem? operand_order (order_index l) ≡ some l
at_order_index Operand.r = refl
at_order_index _ = refl

named_width_table : (k : Mnem) → all (named_width k) operand_order ≡ true
unfolding op_names
named_width_table Mnem.add = refl
named_width_table _ = refl

pub count-width :
    (k : Mnem) (l : Operand) → count l (pattern k) ≡ (if elem l (op_names k) then width l else 0)
count-width k l = ==→eq (count l (pattern k)) (if elem l (op_names k) then width l else 0) (
    all-get_elem? (named_width k) operand_order (order_index l) (named_width_table k)
      (at_order_index l))

abbrev distinct : List Operand → Bool
distinct [] = true
distinct (l ∷ ls) = not (elem l ls) && distinct ls

distinct-AreDistinct : (ls : List Operand) → distinct ls ≡ true → AreDistinct ls
distinct-AreDistinct [] h = tt
distinct-AreDistinct (l ∷ ls) h = (ground (arith, h), distinct-AreDistinct ls (ground (arith, h)))

distinct-op_names : (k : Mnem) → distinct (op_names k) ≡ true
unfolding op_names
distinct-op_names Mnem.add = refl
distinct-op_names _ = refl

pub op_names-AreDistinct : (k : Mnem) → AreDistinct (op_names k)
op_names-AreDistinct k = distinct-AreDistinct (op_names k) (distinct-op_names k)

-- An immediate of 16 bits where C is SP, and only there.
abbrev pub ImmOf : Option ℕ → Option Imm → Type 0
ImmOf none none = Unit {0}
ImmOf (some v) none = (v == sp) ≡ false
ImmOf (some v) (some (int (pos w))) = (v ≡ sp) × (w < 2 ^ 16)
ImmOf _ _ = ⊥

-- The operands while some of those of the mnemonic have still to be chosen.
abbrev pub OpenOr : Bool → ℕ → Option ℕ → Type 0
OpenOr true w v = v ≡ none
OpenOr false w v = Fits w v

pub record Progress (k : Mnem) (rest : List Operand) (o : Ops) : Type 0 where
  pub fits : (l : Operand) → OpenOr (elem l rest) (count l (pattern k)) (get_op l o)
  pub imm : ImmOf o.c o.imm

-- What a choice changes: one operand, and with C the immediate.
pub record Sets (l : Operand) (o o' : Ops) : Type 0 where
  pub value : ℕ
  pub here : get_op l o' ≡ some value
  pub small : Fits (width l) (some value)
  pub others : (i : Operand) → same l i ≡ false → get_op i o' ≡ get_op i o
  pub imm : get_op l o ≡ none → ImmOf o.c o.imm → ImmOf o'.c o'.imm

abbrev get_op-no_ops : (l : Operand) → get_op l no_ops ≡ none
get_op-no_ops Operand.r = refl
get_op-no_ops _ = refl

start_fits :
    (k : Mnem) (l : Operand) (b : Bool)
    → count l (pattern k) ≡ (if b then width l else 0)
    → OpenOr b (count l (pattern k)) (get_op l no_ops)
start_fits k l true h = get_op-no_ops l
start_fits k l false h = rw (h, get_op-no_ops l) tt

pub start : (k : Mnem) → Progress k (op_names k) no_ops
start k = record { fits = λ l. start_fits k l (elem l (op_names k)) (count-width k l); imm = tt }

pub Progress-next :
    (k : Mnem) (l : Operand) (rest : List Operand) (o o' : Ops)
    → elem l rest ≡ false
    → count l (pattern k) ≡ width l
    → Progress k (l ∷ rest) o
    → Sets l o o'
    → Progress k rest o'
Progress-next k l rest o o' new w p h = record {
  fits = fits;
  imm = h.imm (rw (same_refl l) at (p.fits l)) p.imm;
}
  where
    fits : (i : Operand) → OpenOr (elem i rest) (count i (pattern k)) (get_op i o')
    fits i = elim (Bool-cases (same l i)) [
      | inl e ↦
          subst (λ n. OpenOr (elem n rest) (count n (pattern k)) (get_op n o')) (same→eq l i e)
            (rw (new, w, h.here) h.small)
      | inr e ↦ rw (h.others i e) (rw e at (p.fits i))
    ]

pub get_op-set_op_ne :
    (l i : Operand) (v : ℕ) (o : Ops) → same l i ≡ false → get_op i (set_op l v o) ≡ get_op i o
get_op-set_op_ne Operand.r Operand.r v o h = absurd (cc h)
get_op-set_op_ne Operand.s Operand.s v o h = absurd (cc h)
get_op-set_op_ne Operand.a Operand.a v o h = absurd (cc h)
get_op-set_op_ne Operand.b Operand.b v o h = absurd (cc h)
get_op-set_op_ne Operand.n Operand.n v o h = absurd (cc h)
get_op-set_op_ne Operand.c Operand.c v o h = absurd (cc h)
get_op-set_op_ne Operand.m Operand.m v o h = absurd (cc h)
get_op-set_op_ne Operand.j Operand.j v o h = absurd (cc h)
get_op-set_op_ne _ _ v o h = refl

pub get_op-with_imm :
    (i : Operand) (z : Option Imm) (o : Ops) → get_op i (record o { imm = z }) ≡ get_op i o
get_op-with_imm Operand.r z o = refl
get_op-with_imm _ z o = refl

pub set_op-Sets :
    (l : Operand) (v : ℕ) (o : Ops)
    → is_op l (some Operand.c) ≡ false
    → Fits (width l) (some v)
    → Sets l o (set_op l v o)
set_op-Sets Operand.c v o c f = absurd (cc c)
set_op-Sets l v o c f = record {
  value = v;
  here = refl;
  small = f;
  others = λ i d. get_op-set_op_ne l i v o d;
  imm = λ n i. i;
}

pub ImmOf-none :
    (c : Option ℕ) (z : Option Imm) (v : ℕ)
    → c ≡ none
    → ImmOf c z
    → (v == sp) ≡ false
    → ImmOf (some v) z
ImmOf-none none none v n h e = e
ImmOf-none none (some (int (pos w))) v n h e = absurd h
ImmOf-none none (some (int (negsuc w))) v n h e = absurd h
ImmOf-none none (some (ref w)) v n h e = absurd h
ImmOf-none (some x) z v n h e = absurd (cc n)

-- C without an immediate, and with one.
pub c-Sets :
    (v : ℕ) (o : Ops) → (v == sp) ≡ false → v < 2 ^ 4 → Sets Operand.c o (record o { c = some v })
c-Sets v o e small = record {
  value = v;
  here = refl;
  small = small;
  others = λ i d. get_op-set_op_ne Operand.c i v o d;
  imm = λ n i. ImmOf-none o.c o.imm v n i e;
}

pub sp-Sets :
    (v w : ℕ) (o : Ops)
    → (v == sp) ≡ true
    → v < 2 ^ 4
    → w < 2 ^ 16
    → Sets Operand.c o (record o { c = some v; imm = some (int (pos w)) })
sp-Sets v w o e small fits = record {
  value = v;
  here = refl;
  small = small;
  others = λ i d.
      get_op-with_imm i (some (int (pos w))) (record o { c = some v })
      ∙ get_op-set_op_ne Operand.c i v o d;
  imm = λ n i. (==→eq v sp e, fits);
}

-- What `random` documents of `randint`.
abbrev pub InRange : {R : Type 0} → Random R → Type 0
InRange {R} random =
    (lo hi : ℕ) (r : R)
    → lo ≤ hi
    → (lo ≤ (random.randint lo hi r).0) × ((random.randint lo hi r).0 ≤ hi)

-- A choice changes neither the addresses in use nor the conditions.
abbrev pub Kept : {R : Type 0} → State R → State R → Type 0
Kept t t' = (t'.used_addrs ≡ t.used_addrs) × (t'.cond ≡ t.cond)
