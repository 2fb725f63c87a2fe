-- ===== src/Isa/Print.antt =====
-- `__str__` of both classes of scripts/isa.py, and the numerals that the scripts print.
use idli_v.Prelude.{
  ℕ, zero, suc, ◌+◌, ◌-◌, ◌/◌, ◌%◌, List, [], ◌∷◌, ◌++◌, Option, none, some, ℤ, pos, negsuc, Text,
  length, replicate, Result, ok, err, index_error, key_error, ltb, ◌==◌, if◌then◌else◌, ◌>>=◌,
}
use idli_v.Isa.Mnem.{codes, name}
use idli_v.Isa.Instr.{Ops, Imm, int, ref, Cond, cond_t, cond_f, Item, instr, raw, sp}

abbrev pub digit : ℕ → ℕ
digit d = if ltb d 10 then b'0' + d else b'a' + (d - 10)

-- The digits in a base, on fuel; a number is fuel enough for itself.
abbrev digits_text : ℕ → ℕ → ℕ → Text → Text
digits_text zero base n acc = acc
digits_text (suc fuel) base n acc =
    let rest = digits_text fuel base (n / base) (digit (n % base) ∷ acc) in
    if n == 0 then acc else rest

abbrev pub numeral : ℕ → ℕ → Text
numeral base zero = b'0' ∷ []
numeral base (suc n) = digits_text (suc n) base (suc n) []

-- `str(n)`
unfoldable pub decimal_text : ℕ → Text
decimal_text n = numeral 10 n

-- `hex(z)`
abbrev hex : ℤ → Text
hex (pos n) = codes "0x" ++ numeral 16 n
hex (negsuc n) = codes "-0x" ++ numeral 16 (n + 1)

-- `f'{n:04x}'`, where the sign of a negative number counts.
unfoldable pub hex4 : ℤ → Text
hex4 (pos n) = let ds = numeral 16 n in replicate (4 - length ds) b'0' ++ ds
hex4 (negsuc n) = let ds = numeral 16 (n + 1) in b'-' ∷ replicate (3 - length ds) b'0' ++ ds

-- `REGS_INV[v]`, where the later names of a register stand.
unfoldable pub reg_text : ℕ → Result Text
reg_text v =
    if v == 0
    then ok (codes "zr")
    else if v == 14
    then ok (codes "lr")
    else if v == 15
    then ok (codes "sp")
    else if ltb v 14
    then ok (b'r' ∷ decimal_text v)
    else err key_error

abbrev reg_ops : Option ℕ → Result (List Text)
reg_ops none = ok []
reg_ops (some v) = reg_text v >>= λ t. ok (t ∷ [])

abbrev number_ops : Option ℕ → List Text
number_ops none = []
number_ops (some v) = decimal_text v ∷ []

abbrev c_ops : Option ℕ → Result (List Text)
c_ops none = ok []
c_ops (some v) = if v == sp then ok [] else reg_ops (some v)

abbrev imm_texts : Option Imm → List Text
imm_texts none = []
imm_texts (some (int z)) = hex z ∷ []
imm_texts (some (ref t)) = t ∷ []

-- The texts of the operands, in the order of the record.
unfoldable pub op_texts : Ops → Result (List Text)
op_texts o = do
  r ← reg_ops o.r
  s ← reg_ops o.s
  a ← reg_ops o.a
  b ← reg_ops o.b
  c ← c_ops o.c
  ok (
      r
      ++ (s
          ++ (a
              ++ (b
                  ++ (number_ops o.n
                      ++ (c ++ (number_ops o.m ++ (number_ops o.j ++ imm_texts o.imm))))))))

-- `[f'{ops[0]}..{ops[1]}'] + ops[2:]` if there is an R.
abbrev join_range : Option ℕ → List Text → Result (List Text)
join_range none ops = ok ops
join_range (some r) (x ∷ y ∷ ops) = ok ((x ++ b'.' ∷ b'.' ∷ y) ∷ ops)
join_range (some r) ops = err index_error

-- `', '.join(ops)`
abbrev join : List Text → Text
join [] = []
join (t ∷ []) = t
join (t ∷ u ∷ ts) = t ++ b',' ∷ b' ' ∷ join (u ∷ ts)

abbrev cond_text : Option Cond → Text
cond_text none = []
cond_text (some cond_t) = codes ".t"
cond_text (some cond_f) = codes ".f"

-- `__str__`
unfoldable pub item_text : Item → Result Text
item_text (instr i) = do
  texts ← op_texts i.ops
  ops ← join_range i.ops.r texts
  ok (codes (name i.mnem) ++ cond_text i.cond ++ b' ' ∷ join ops)
item_text (raw d) = ok (codes ".int 0x" ++ hex4 d)
