-- ===== src/Isa/Instr.antt =====
-- `Instruction` and `RawData` of scripts/isa.py, and `SYNONYMS`. The dictionary of operands is a
-- record with one optional field for each key, in the order of `OPERAND_ORDER`.
pub mod Fill
pub mod Encode
pub mod Word
pub mod Mask
use idli_v.Prelude.{
  ℕ, zero, suc, ◌+◌, ◌-◌, ◌*◌, ◌/◌, ◌%◌, ◌^◌, Bool, true, false, Option, none, some, List, [], ◌∷◌,
  ◌++◌, map, Text, bit_or, max, ltb, ◌==◌, if◌then◌else◌, length, ℤ, pos, negsuc, Result, ok, err,
  struct_error, exception, value_error, ◌>>=◌,
}
use idli_v.Prelude.Bits.{bit_length, to_bits}
use idli_v.Isa.Mnem.{Mnem}
use idli_v.Isa.Encoding.{Operand, Cell, bit, unused, holds, count, pattern, operand_order}

-- An immediate is an integer, or the text of a label that is not resolved yet.
pub data Imm : Type 0 where
  int : ℤ → Imm
  ref : Text → Imm

pub record Ops : Type 0 where
  pub r : Option ℕ
  pub s : Option ℕ
  pub a : Option ℕ
  pub b : Option ℕ
  pub n : Option ℕ
  pub c : Option ℕ
  pub m : Option ℕ
  pub j : Option ℕ
  pub imm : Option Imm

abbrev pub no_ops : Ops
no_ops = record {
  r = none;
  s = none;
  a = none;
  b = none;
  n = none;
  c = none;
  m = none;
  j = none;
  imm = none;
}

-- The suffixes '.t' and '.f'.
pub data Cond : Type 0 where
  cond_t cond_f : Cond

pub record Instruction : Type 0 where
  pub mnem : Mnem
  pub ops : Ops
  pub cond : Option Cond
  pub cex_mask : Option ℕ

-- What the assembler emits and the disassembler returns: an `Instruction`, or a `RawData`.
pub data Item : Type 0 where
  instr : Instruction → Item
  raw : ℤ → Item

-- `REGS['sp']`, `REGS['lr']` and `REGS['zr']`
abbrev pub sp : ℕ
sp = 15

abbrev pub lr : ℕ
lr = 14

abbrev pub zr : ℕ
zr = 0

-- `self.mnem in CMPX`
abbrev pub is_cmpx : Mnem → Bool
is_cmpx Mnem.eqx = true
is_cmpx Mnem.nex = true
is_cmpx Mnem.ltx = true
is_cmpx Mnem.ltux = true
is_cmpx Mnem.gex = true
is_cmpx Mnem.geux = true
is_cmpx Mnem.anyx = true
is_cmpx Mnem.inpx = true
is_cmpx _ = false

abbrev pub get_zero : Option ℕ → ℕ
get_zero none = 0
get_zero (some v) = v

unfoldable pub num_cond : Instruction → ℕ
num_cond i = if is_cmpx i.mnem then 1 else get_zero i.ops.m

abbrev has_imm : Option Imm → ℕ
has_imm none = 0
has_imm (some v) = 1

unfoldable pub size : Instruction → ℕ
size i = 1 + has_imm i.ops.imm

unfoldable pub item_num_cond : Item → ℕ
unfolding num_cond
item_num_cond (instr i) = num_cond i
item_num_cond (raw d) = 0

unfoldable pub item_size : Item → ℕ
unfolding size
item_size (instr i) = size i
item_size (raw d) = 1

abbrev pub cond_of : Item → Option Cond
cond_of (instr i) = i.cond
cond_of (raw d) = none

abbrev pub cond_bit : Cond → ℕ
cond_bit cond_t = 1
cond_bit cond_f = 0

-- The loop over `range(v)` that sets the bits of M from the conditions of the followers, from
-- follower `i` on.
pub mask_loop : ℕ → ℕ → List Item → ℕ → Result ℕ
mask_loop zero i followers mask = ok mask
mask_loop (suc left) i [] mask = err exception
mask_loop (suc left) i (f ∷ followers) mask = elim (cond_of f) [
  | none ↦ err exception
  | some x ↦ mask_loop left (i + 1) followers (bit_or mask (cond_bit x * 2 ^ i))
]

-- The value that is encoded for M when `v` instructions are predicated.
unfoldable pub encode_mask : ℕ → List Item → Result ℕ
unfolding mask_loop
encode_mask v followers =
    if ltb (length followers) v then err exception else mask_loop v 0 followers (2 ^ v)

-- `f'{v:0{space}b}'`: the digits of `v`, at least one, padded to `space`.
unfoldable pub format_bin : ℕ → ℕ → List ℕ
format_bin space v = to_bits (max (max space 1) (bit_length v)) v

-- `next(v_enc) if x == k else x`, along the encoding.
unfoldable pub insert_bits : Operand → List ℕ → List Cell → List Cell
insert_bits k ds [] = []
insert_bits k [] (x ∷ xs) = x ∷ insert_bits k [] xs
insert_bits k (d ∷ ds) (x ∷ xs) =
    if holds k x then bit d ∷ insert_bits k ds xs else x ∷ insert_bits k (d ∷ ds) xs

-- One round of the loop over the operands.
unfoldable pub encode_operand : Operand → Option ℕ → List Cell → Result (List Cell)
unfolding insert_bits
encode_operand k none bits = ok bits
encode_operand k (some v) bits =
    let v_enc = format_bin (count k bits) v in
    if length v_enc == count k bits then ok (insert_bits k v_enc bits) else err exception

-- `int(bits, 2)`, which takes binary digits only.
unfoldable pub parse_bits : ℕ → List Cell → Result ℕ
parse_bits acc [] = ok acc
parse_bits acc (bit d ∷ xs) = parse_bits (acc * 2 + d) xs
parse_bits acc (x ∷ xs) = err value_error

abbrev pub clear_unused : Cell → Cell
clear_unused unused = bit 0
clear_unused x = x

abbrev pub get_op : Operand → Ops → Option ℕ
get_op Operand.r o = o.r
get_op Operand.s o = o.s
get_op Operand.a o = o.a
get_op Operand.b o = o.b
get_op Operand.n o = o.n
get_op Operand.c o = o.c
get_op Operand.m o = o.m
get_op Operand.j o = o.j

abbrev pub encode_m : Option ℕ → List Item → Result (Option ℕ)
encode_m none followers = ok none
encode_m (some v) followers = do mask ← encode_mask v followers; ok (some mask)

-- The value that is encoded for an operand: M is replaced by the mask.
abbrev pub operand_code : Operand → Ops → List Item → Result (Option ℕ)
operand_code Operand.m o followers = encode_m o.m followers
operand_code k o followers = ok (get_op k o)

-- `for k, v in self.ops.items()`, without the immediate.
unfoldable pub encode_operands : List Operand → Ops → List Item → List Cell → Result (List Cell)
encode_operands [] o followers bits = ok bits
encode_operands (k ∷ ks) o followers bits = do
  v ← operand_code k o followers
  bits' ← encode_operand k v bits
  encode_operands ks o followers bits'

-- The 16 bits of the instruction itself.
unfoldable pub encode_word : Instruction → List Item → Result ℕ
unfolding parse_bits encode_operands
encode_word i followers = do
  bits ← encode_operands operand_order i.ops followers (map clear_unused (pattern i.mnem))
  parse_bits 0 bits

-- `struct.pack('>H', n)` and `struct.pack('>h', z)`
unfoldable pub pack_u16 : ℕ → Result (List ℕ)
pack_u16 n = if ltb n (2 ^ 16) then ok ((n / 256) ∷ (n % 256) ∷ []) else err struct_error

unfoldable pub pack_i16 : ℤ → Result (List ℕ)
unfolding pack_u16
pack_i16 (pos n) = if ltb n (2 ^ 15) then pack_u16 n else err struct_error
pack_i16 (negsuc n) = if ltb n (2 ^ 15) then pack_u16 (2 ^ 16 - 1 - n) else err struct_error

abbrev pub encode_imm : Option Imm → Result (List ℕ)
encode_imm none = ok []
encode_imm (some (int z)) = pack_i16 z
encode_imm (some (ref l)) = err struct_error

-- `Instruction.encode`
unfoldable pub encode : Instruction → List Item → Result (List ℕ)
encode i followers = do
  word ← encode_word i followers
  out ← pack_u16 word
  imm ← encode_imm i.ops.imm
  ok (out ++ imm)

-- `encode` of either class.
unfoldable pub item_encode : Item → List Item → Result (List ℕ)
unfolding encode
item_encode (instr i) followers = encode i followers
item_encode (raw d) followers = pack_i16 d
