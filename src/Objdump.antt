-- ===== src/Objdump.antt =====
-- scripts/objdump.py: `decode` and its helper `_parse_op_m`. A binary is the list of its bytes.

pub mod Matches
pub mod Word
pub mod RoundTrip
pub mod Listing
use idli_v.Prelude.{
  ℕ, zero, suc, ◌≡◌, refl, ◌+◌, ◌-◌, ◌*◌, ◌/◌, ◌%◌, ◌^◌, Bool, true, false, Option, none, some,
  List, [], ◌∷◌, bit_and, ltb, leb, ◌==◌, if◌then◌else◌, length, keep, ℤ, pos, negsuc, Result, ok,
  err, exception, struct_error, ◌>>=◌,
}
use idli_v.Prelude.Bits.{bit_length, from_bits}
use idli_v.Isa.Mnem.{Mnem, mnems}
use idli_v.Isa.Encoding.{Operand, Cell, holds, count, pattern, opcode, opcode_mask, operand_mask}
use idli_v.Isa.Instr.{int, Ops, Cond, cond_t, cond_f, Instruction, Item, instr, raw, sp, num_cond}

-- The loop `while enc != 1` of `_parse_op_m`, on fuel.
pub parse_loop : ℕ → ℕ → List Cond
parse_loop zero enc = []
parse_loop (suc f) enc =
    let rest = parse_loop f (enc / 2) in
    if enc == 1 then [] else (if enc % 2 == 1 then cond_t else cond_f) ∷ rest

-- `_parse_op_m`; a number is fuel enough for itself.
unfoldable pub parse_op_m : ℕ → Result (List Cond)
unfolding parse_loop
parse_op_m enc = if enc == 0 then err exception else ok (parse_loop enc enc)

-- The mnemonics that a word fits.
unfoldable pub matches : ℕ → List Mnem
matches enc = keep (λ k. bit_and enc (opcode_mask k) == opcode k) mnems

-- `(mask & -mask).bit_length() - 1`, with the negation of a 16-bit word.
abbrev pub shift_of : ℕ → ℕ
shift_of mask = bit_length (bit_and mask (2 ^ 16 - mask)) - 1

unfoldable pub extract : Operand → List Cell → ℕ → ℕ
extract k p enc = bit_and enc (operand_mask k p) / 2 ^ shift_of (operand_mask k p)

abbrev pub operand_value : Operand → List Cell → ℕ → Option ℕ
operand_value k p enc = if count k p == 0 then none else some (extract k p enc)

unfoldable pub decode_ops : List Cell → ℕ → Ops
decode_ops p enc = record {
  r = operand_value Operand.r p enc;
  s = operand_value Operand.s p enc;
  a = operand_value Operand.a p enc;
  b = operand_value Operand.b p enc;
  n = operand_value Operand.n p enc;
  c = operand_value Operand.c p enc;
  m = operand_value Operand.m p enc;
  j = operand_value Operand.j p enc;
  imm = none;
}

-- `struct.unpack('>h', [hi, lo])`
abbrev pub unpack_i16 : ℕ → ℕ → ℤ
unpack_i16 hi lo =
    let v = hi * 256 + lo in if ltb v (2 ^ 15) then pos v else negsuc (2 ^ 16 - 1 - v)

abbrev read_imm : Ops → List ℕ → Result (Ops × List ℕ)
read_imm o (hi ∷ lo ∷ rest) = ok (record o { imm = some (int (unpack_i16 hi lo)) }, rest)
read_imm o _ = err struct_error

-- `ops.get('c') == isa.REGS['sp']`
abbrev pub takes_imm : Option ℕ → Bool
takes_imm none = false
takes_imm (some v) = v == sp

-- The operands with the immediate that may follow, and the bytes that are left.
unfoldable pub take_imm : Ops → List ℕ → Result (Ops × List ℕ)
take_imm o rest = if takes_imm o.c then read_imm o rest else ok (o, rest)

-- `if ops.get('m')`: the operands with the number of predicated followers for M, the mask, and
-- the conditions.
unfoldable pub take_m : Ops → Option ℕ → Result (Ops × Option ℕ × List Cond)
take_m o none = ok (o, none, [])
take_m o (some zero) = ok (o, none, [])
take_m o (some (suc v)) = do
  conds ← parse_op_m (suc v)
  ok (record o { m = some (length conds) }, some (suc v), conds)

-- The condition of this instruction, and what is left of the conditional state.
abbrev pub pop_cond : List Cond → Option Cond × List Cond
pop_cond [] = (none, [])
pop_cond (x ∷ conds) = (some x, conds)

abbrev is_cex : Mnem → Bool
is_cex Mnem.cex = true
is_cex _ = false

-- The conditional state after an instruction that sets it, if it does.
abbrev pub next_state : Instruction → List Cond → List Cond → List Cond
next_state i conds state =
    if num_cond i == 0 then state else if is_cex i.mnem then conds else cond_t ∷ []

pub record Decoded : Type 0 where
  pub item : Item
  pub state : List Cond
  pub rest : List ℕ

-- What the body of the loop makes of a word that fits one mnemonic.
unfoldable pub decode_instr : Mnem → ℕ → List Cond → List ℕ → Result Decoded
decode_instr k enc state tail = do
  (o, rest) ← take_imm (decode_ops (pattern k) enc) tail
  (o', cex_mask, conds) ← take_m o o.m
  let (cond, state') = pop_cond state
  let i : Instruction = record { mnem = k; ops = o'; cond = cond; cex_mask = cex_mask }
  ok (record { item = instr i; state = next_state i conds state'; rest = rest })

abbrev decode_matches : List Mnem → ℕ → List Cond → List ℕ → Result Decoded
decode_matches [] enc state rest = ok (record { item = raw (pos enc); state = state; rest = rest })
decode_matches (k ∷ []) enc state rest = decode_instr k enc state rest
decode_matches (k ∷ l ∷ ks) enc state rest = err exception

-- One round of the loop `while data`.
unfoldable pub decode_item : List ℕ → List Cond → Result Decoded
decode_item (hi ∷ lo ∷ rest) state =
    let enc = hi * 256 + lo in decode_matches (matches enc) enc state rest
decode_item _ state = err struct_error

-- `max_items is not None and len(items) >= max_items`, after one more item.
abbrev is_full : Option ℕ → ℕ → Bool
is_full none n = false
is_full (some limit) n = leb limit n

-- The loop, with the number of items so far, on fuel: each round takes a byte at least.
unfoldable pub decode_loop : ℕ → Option ℕ → ℕ → List ℕ → List Cond → Result (List Item)
decode_loop fuel max_items n [] state = ok []
decode_loop zero max_items n (x ∷ xs) state = err exception
decode_loop (suc fuel) max_items n (x ∷ xs) state = do
  d ← decode_item (x ∷ xs) state
  let more = decode_loop fuel max_items (n + 1) d.rest d.state
  items ← (if is_full max_items (n + 1) then ok [] else more)
  ok (d.item ∷ items)

unfoldable pub decode : List ℕ → Option ℕ → Result (List Item)
unfolding decode_loop
decode binary max_items =
    if length binary % 2 == 0
    then decode_loop (length binary) max_items 0 binary []
    else err exception
