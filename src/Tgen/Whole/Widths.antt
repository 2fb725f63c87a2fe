-- ===== src/Tgen/Whole/Widths.antt =====
-- The widths of the operands of the memory operations of scripts/tgen.py.
use idli_v.Prelude.{ℕ, ◌^◌, ◌<◌, ◌≡◌, refl, arith, true, false, [], ◌∷◌, Option, none, some, pos}
use idli_v.Isa.Mnem.{Mnem}
use idli_v.Isa.Encoding.{Operand, count, pattern}
use idli_v.Isa.Instr.{Ops, int, sp, get_op}
use idli_v.Isa.Instr.Encode.{Fits, elem}
use idli_v.Tgen.Pick.{mem_op, is_op}
use idli_v.Tgen.Operands.{Progress, OpenOr}

pub Fits-none : (v : Option ℕ) → Fits 0 v → v ≡ none
Fits-none none f = refl
Fits-none (some v) f = absurd f

index_count :
    (k : Mnem) (l : Operand)
    → is_op Operand.c (mem_op k) ≡ true
    → count l (pattern k) ≡ count l (pattern Mnem.ld)
unfolding pattern
index_count Mnem.ld l g = refl
index_count Mnem.st l g = refl
index_count _ l g = absurd (cc g)

-- LD or ST with registers A and B, and an immediate.
abbrev IsIndexed : Ops → Type 0
IsIndexed o =
    Fits 0 o.r
    × Fits 0 o.s
    × Fits 4 o.a
    × Fits 4 o.b
    × Fits 0 o.n
    × Fits 0 o.m
    × Fits 0 o.j
    × (o.c ≡ some sp)

ld-Fits : (o : Ops) → IsIndexed o → (l : Operand) → Fits (count l (pattern Mnem.ld)) (get_op l o)
unfolding pattern
ld-Fits o f Operand.r = f.0
ld-Fits o f Operand.s = f.1
ld-Fits o f Operand.a = f.2
ld-Fits o f Operand.b = f.3
ld-Fits o f Operand.n = f.4
ld-Fits o f Operand.m = f.5
ld-Fits o f Operand.j = f.6
ld-Fits o f Operand.c = rw (f.7) (omega arith)

pub whole_Progress :
    (k : Mnem) (o : Ops) (v : ℕ)
    → is_op Operand.c (mem_op k) ≡ true
    → IsIndexed o
    → v < 2 ^ 16
    → Progress k [] (record o { imm = some (int (pos v)) })
whole_Progress k o v g f small = record {
  fits = λ l. rw (index_count k l g) (ld-Fits (record o { imm = some (int (pos v)) }) f l);
  imm = rw (f.7) (refl, small);
}

pub Fits-some : (v : Option ℕ) → Fits 4 v → (n : ℕ) × (v ≡ some n) × (n < 2 ^ 4)
Fits-some none f = absurd f
Fits-some (some n) f = (n, refl, f)

pub no_mem_op :
    (k : Mnem)
    → is_op Operand.c (mem_op k) ≡ false
    → is_op Operand.b (mem_op k) ≡ false
    → mem_op k ≡ none
no_mem_op Mnem.ld f g = absurd (cc f)
no_mem_op Mnem.st f g = absurd (cc f)
no_mem_op k f g = ground (arith, f, g)

-- What is open or chosen, by the widths of another mnemonic.
pub open_as :
    (k : Mnem) (i : Operand) (o : Ops)
    → Progress k (i ∷ []) o
    → ((l : Operand) → count l (pattern k) ≡ count l (pattern Mnem.ld_inc))
    → (l : Operand) → OpenOr (elem l (i ∷ [])) (count l (pattern Mnem.ld_inc)) (get_op l o)
open_as k i o p widths l = rw (widths l) at (p.fits l)

pub block_as :
    (k : Mnem) (i : Operand) (o : Ops)
    → Progress k (i ∷ []) o
    → ((l : Operand) → count l (pattern k) ≡ count l (pattern Mnem.ldm))
    → (l : Operand) → OpenOr (elem l (i ∷ [])) (count l (pattern Mnem.ldm)) (get_op l o)
block_as k i o p widths l = rw (widths l) at (p.fits l)
