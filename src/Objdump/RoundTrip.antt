-- ===== src/Objdump/RoundTrip.antt =====
-- Disassembling what `Instruction.encode` wrote gives the instruction back.
use idli_v.Prelude.{
  ℕ, zero, suc, ◌+◌, ◌*◌, ◌/◌, ◌%◌, ◌<◌, ◌^◌, ◌≡◌, refl, sym, ap, ◌∙◌, Bool, true, false, List, [],
  ◌∷◌, ◌++◌, arith, ok, length, none, some, Option, ℤ, pos, negsuc, low16,
}
use idli_v.Isa.Mnem.{Mnem}
use idli_v.Isa.Encoding.{Operand, pattern, count}
use idli_v.Isa.Instr.{
  Ops, Imm, int, ref, Cond, cond_t, cond_f, Instruction, Item, instr, encode, encode_word,
  encode_imm, encode_m, operand_code, get_op, pack_u16, pack_i16,
}
use idli_v.Isa.Instr.Encode.{Fits}
use idli_v.Isa.Instr.Mask.{mask_value, Follow, encode_mask-Follow}
use idli_v.Objdump.{
  parse_loop, parse_op_m, decode_item, decode_instr, decode_ops, take_imm, take_m, takes_imm,
  pop_cond, next_state, unpack_i16,
}
use idli_v.Objdump.Matches.{matches_unique}
use idli_v.Objdump.Word.{Shows, encode_word-Shows}

abbrev mask_code : Option ℕ → List Cond → Option ℕ
mask_code none conds = none
mask_code (some v) conds = some (mask_value conds)

-- The values that are encoded: for M, the mask of the followers' conditions.
abbrev pub code_of : Ops → List Cond → Operand → Option ℕ
code_of o conds Operand.m = mask_code o.m conds
code_of o conds k = get_op k o

abbrev Counted : Option ℕ → List Cond → Type 0
Counted none conds = conds ≡ []
Counted (some v) conds = v ≡ length conds

abbrev pub IsI16 : ℤ → Type 0
IsI16 (pos n) = n < 2 ^ 15
IsI16 (negsuc n) = n < 2 ^ 15

abbrev ImmFits : Bool → Option Imm → Type 0
ImmFits true (some (int z)) = IsI16 z
ImmFits false none = Unit {0}
ImmFits _ _ = ⊥

-- An instruction with the operands that its encoding takes, in their ranges, an immediate where C
-- is SP and only there, and, for M, followers with `conds` as conditions.
pub record IsEncodable (i : Instruction) (conds : List Cond) (followers : List Item) : Type 0 where
  pub fits : (l : Operand) → Fits (count l (pattern i.mnem)) (code_of i.ops conds l)
  pub follow : Follow conds followers
  pub counted : Counted i.ops.m conds
  pub imm : ImmFits (takes_imm i.ops.c) i.ops.imm

mask_value-pos : (conds : List Cond) → length conds < mask_value conds
mask_value-pos [] = omega arith
mask_value-pos (x ∷ conds) = omega (arith, mask_value-pos conds)

parse_loop-mask_value :
    (f : ℕ) (conds : List Cond) → length conds < f → parse_loop f (mask_value conds) ≡ conds
unfolding parse_loop
parse_loop-mask_value zero conds h = absurd (omega arith)
parse_loop-mask_value (suc f) [] h = refl
parse_loop-mask_value (suc f) (cond_t ∷ conds) h =
    let half : (2 * mask_value conds + 1) / 2 ≡ mask_value conds = omega arith in
    let rest = parse_loop-mask_value f conds (omega arith) in
    ground (arith, rest, half, mask_value-pos conds, ap (parse_loop f) half)
parse_loop-mask_value (suc f) (cond_f ∷ conds) h =
    let half : (2 * mask_value conds + 0) / 2 ≡ mask_value conds = omega arith in
    let rest = parse_loop-mask_value f conds (omega arith) in
    ground (arith, rest, half, mask_value-pos conds, ap (parse_loop f) half)

-- The disassembler reads the mask of any conditions back as these conditions, in their order.
pub parse_op_m-mask_value : (conds : List Cond) → parse_op_m (mask_value conds) ≡ ok conds
unfolding parse_op_m
parse_op_m-mask_value conds = ground (
  arith,
  mask_value-pos conds,
  parse_loop-mask_value (mask_value conds) conds (mask_value-pos conds),
)

abbrev imm_bytes : Option Imm → List ℕ
imm_bytes (some (int z)) = (low16 z / 256) ∷ (low16 z % 256) ∷ []
imm_bytes _ = []

encode_imm-ImmFits : (b : Bool) (v : Option Imm) → ImmFits b v → encode_imm v ≡ ok (imm_bytes v)
unfolding pack_i16
encode_imm-ImmFits true (some (int (pos n))) h = ground arith
encode_imm-ImmFits true (some (int (negsuc n))) h = ground arith
encode_imm-ImmFits true (some (ref l)) h = absurd h
encode_imm-ImmFits true none h = absurd h
encode_imm-ImmFits false none h = refl
encode_imm-ImmFits false (some v) h = absurd h

unpack_i16-low16 : (z : ℤ) → IsI16 z → unpack_i16 (low16 z / 256) (low16 z % 256) ≡ z
unpack_i16-low16 (pos n) h = ground arith
unpack_i16-low16 (negsuc n) h = ground arith

take_imm-ImmFits :
    (o : Ops) (b : Bool) (v : Option Imm) (rest : List ℕ)
    → takes_imm o.c ≡ b
    → o.imm ≡ none
    → ImmFits b v
    → take_imm o (imm_bytes v ++ rest) ≡ ok (record o { imm = v }, rest)
unfolding take_imm
take_imm-ImmFits o true (some (int z)) rest e h f =
    rw e (ap (λ (x : ℤ). ok (record o { imm = some (int x) }, rest)) (unpack_i16-low16 z f))
take_imm-ImmFits o true (some (ref l)) rest e h f = absurd f
take_imm-ImmFits o true none rest e h f = absurd f
take_imm-ImmFits o false none rest e h f = rw e (ground arith)
take_imm-ImmFits o false (some v) rest e h f = absurd f

take_m-pos :
    (o : Ops) (v : ℕ) (conds : List Cond)
    → 0 < v
    → parse_op_m v ≡ ok conds
    → take_m o (some v) ≡ ok (record o { m = some (length conds) }, some v, conds)
unfolding take_m
take_m-pos o zero conds h e = absurd (omega arith)
take_m-pos o (suc v) conds h e = rw e refl

-- What the disassembler makes of M: the number of the conditions again.
take_m-Counted :
    (o : Ops) (m : Option ℕ) (conds : List Cond)
    → Counted m conds
    → take_m (record o { m = mask_code m conds }) (mask_code m conds)
      ≡ ok (record o { m = m }, mask_code m conds, conds)
unfolding take_m
take_m-Counted o none conds h = ground (arith, h)
take_m-Counted o (some v) conds h =
    take_m-pos (record o { m = some (mask_value conds) }) (mask_value conds) conds
      (omega (arith, mask_value-pos conds)) (parse_op_m-mask_value conds)
    ∙ ap (λ (n : ℕ). ok (record o { m = some n }, some (mask_value conds), conds)) (sym h)

decode_ops-Shows :
    (k : Mnem) (o : Ops) (conds : List Cond) (word : ℕ)
    → Shows k (code_of o conds) word
    → decode_ops (pattern k) word ≡ record o { m = mask_code o.m conds; imm = none }
unfolding decode_ops
decode_ops-Shows k o conds word h = λ i. record {
  r = h.value Operand.r i;
  s = h.value Operand.s i;
  a = h.value Operand.a i;
  b = h.value Operand.b i;
  n = h.value Operand.n i;
  c = h.value Operand.c i;
  m = h.value Operand.m i;
  j = h.value Operand.j i;
  imm = none;
}

-- The instruction as the disassembler returns it, in a conditional state.
abbrev pub decoded : Instruction → List Cond → List Cond → Instruction
decoded i conds state = record i { cond = (pop_cond state).0; cex_mask = mask_code i.ops.m conds }

decode_instr-Shows :
    (i : Instruction) (conds : List Cond) (followers : List Item) (word : ℕ) (state : List Cond)
    (rest : List ℕ)
    → IsEncodable i conds followers
    → Shows i.mnem (code_of i.ops conds) word
    → decode_instr i.mnem word state (imm_bytes i.ops.imm ++ rest)
      ≡ ok (record {
        item = instr (decoded i conds state);
        state = next_state (decoded i conds state) conds (pop_cond state).1;
        rest = rest;
      })
unfolding decode_instr
decode_instr-Shows i conds followers word state rest h w =
    rw
      (
        decode_ops-Shows i.mnem i.ops conds word w,
        take_imm-ImmFits (record i.ops { m = mask_code i.ops.m conds; imm = none })
            (takes_imm i.ops.c) i.ops.imm rest refl refl h.imm,
        take_m-Counted i.ops i.ops.m conds h.counted,
      )
      refl

encode_m-Counted :
    (m : Option ℕ) (conds : List Cond) (followers : List Item)
    → Counted m conds
    → Follow conds followers
    → encode_m m followers ≡ ok (mask_code m conds)
encode_m-Counted none conds followers h f = refl
encode_m-Counted (some v) conds followers h f = rw (h, encode_mask-Follow conds followers f) refl

codes_of :
    (i : Instruction) (conds : List Cond) (followers : List Item)
    → IsEncodable i conds followers
    → (l : Operand) → operand_code l i.ops followers ≡ ok (code_of i.ops conds l)
codes_of i conds followers h Operand.m = encode_m-Counted i.ops.m conds followers h.counted h.follow
codes_of i conds followers h Operand.r = refl
codes_of i conds followers h l = refl

-- The bytes of an encoded instruction.
abbrev word_bytes : ℕ → Option Imm → List ℕ
word_bytes word v = (word / 256) ∷ (word % 256) ∷ imm_bytes v

encode-Shows :
    (i : Instruction) (conds : List Cond) (followers : List Item) (word : ℕ)
    → IsEncodable i conds followers
    → encode_word i followers ≡ ok word
    → word < 2 ^ 16
    → encode i followers ≡ ok (word_bytes word i.ops.imm)
unfolding encode pack_u16
encode-Shows i conds followers word h runs fits =
    rw (runs, encode_imm-ImmFits (takes_imm i.ops.c) i.ops.imm h.imm) (ground arith)

decode_item-Shows :
    (i : Instruction) (conds : List Cond) (followers : List Item) (word : ℕ) (state : List Cond)
    (rest : List ℕ)
    → IsEncodable i conds followers
    → Shows i.mnem (code_of i.ops conds) word
    → decode_item (word_bytes word i.ops.imm ++ rest) state
      ≡ ok (record {
        item = instr (decoded i conds state);
        state = next_state (decoded i conds state) conds (pop_cond state).1;
        rest = rest;
      })
unfolding decode_item
decode_item-Shows i conds followers word state rest h w =
    let whole : word / 256 * 256 + word % 256 ≡ word = omega arith in
    rw (whole, matches_unique word i.mnem w.fits)
      (decode_instr-Shows i conds followers word state rest h w)

-- An instruction whose operands are those of its encoding and fit it, with an immediate of 16 bits
-- where C is SP and only there, and with the followers whose conditions its mask holds, is encoded.
-- Decoding the bytes, with anything behind them and in any conditional state, gives the
-- instruction back, with the condition of that state and the mask, and leaves the rest.
pub decode-encode :
    (i : Instruction) (conds : List Cond) (followers : List Item)
    → IsEncodable i conds followers
    → (bytes : List ℕ) × (encode i followers ≡ ok bytes)
      × ((state : List Cond) (rest : List ℕ)
          → decode_item (bytes ++ rest) state
            ≡ ok (record {
              item = instr (decoded i conds state);
              state = next_state (decoded i conds state) conds (pop_cond state).1;
              rest = rest;
            }))
decode-encode i conds followers h =
    let found =
      encode_word-Shows i followers (code_of i.ops conds) (codes_of i conds followers h) h.fits in
    (
      word_bytes found.0 i.ops.imm,
      encode-Shows i conds followers found.0 h found.1 found.2.fits16,
      λ state rest. decode_item-Shows i conds followers found.0 state rest h found.2,
    )
