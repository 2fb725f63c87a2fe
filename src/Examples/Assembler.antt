-- ===== src/Examples/Assembler.antt =====
-- The assembler at concrete inputs.
use idli_v.Prelude.{
  ℕ, ◌≡◌, ◌≢◌, ◌*◌, refl, arith, true, List, [], ◌∷◌, none, some, ok, err, abort, Error, ℤ, pos,
  low16, length, Text, Dict, find, inr,
}
use idli_v.Prelude.Bits.{bit_length, bit_length_fuel}
use idli_v.Isa.Mnem.{Mnem}
use idli_v.Isa.Encoding.{Operand, pattern}
use idli_v.Isa.Instr.{
  Item, ref, Instruction, instr, raw, size, num_cond, item_encode, encode, encode_word,
  encode_operands, encode_operand, pack_u16, pack_i16, parse_bits, insert_bits, format_bin, cond_t,
}
use idli_v.Isa.Synonym.{reg_of, nop}
use idli_v.Objdump.{takes_imm}
use idli_v.Objdump.RoundTrip.{IsI16, decoded}
use idli_v.Sim.State.{Sim, init}
use idli_v.Sim.Host.{Host, load, fetch, host}
use idli_v.Sim.Tick.{run_item}
use idli_v.Asm.{Asm, Source, number, InstrTree, real_op, synonym, start}
use idli_v.Asm.Numbers.{signed_imm, int_digits}
use idli_v.Asm.Numbers.Range.{signed_imm-IsI16}
use idli_v.Asm.Parse.{
  add_item, check_suffix, instr_of, parse_instr, parse_tree, parse_operands, parse_operand,
}
use idli_v.Asm.Overlap.{add_item-overlap, sll_sp, instr_of-sll_sp}
use idli_v.Asm.Conditions.{parse_series, Stand, AreMasked, parse_series-AreMasked}
use idli_v.Asm.Labels.{target, forward, backward, resolve_item}
use idli_v.Asm.Labels.Nearest.{target-forward, target-backward, target-missing}
use idli_v.Asm.Labels.Arrive.{branch, run_item-branch}
use idli_v.Asm.Labels.Absolute.{with_address, resolve_item-high}
use idli_v.Asm.Image
use idli_v.Asm.Image.{mem_size}
use idli_v.Asm.Image.Chunks.{AllHeld, Chunks}
use idli_v.Asm.Image.Layout.{encode-AllHeld}
use idli_v.Asm.Image.Size.{encode-full}
use idli_v.Asm.Image.Fetch.{fetch-encode}
use idli_v.Examples.Code.{add_five, add_five-IsEncodable}

abbrev five_bytes : List ℕ
five_bytes = 1 ∷ 47 ∷ 0 ∷ 5 ∷ []

five_coded : encode add_five [] ≡ ok five_bytes
unfolding encode encode_word encode_operands encode_operand pack_u16 pack_i16 pattern parse_bits
    insert_bits format_bin bit_length bit_length_fuel
five_coded = refl

-- Data at address 1, and the instruction behind it at address 2.
abbrev two_items : Asm
two_items = record {
  labels = [];
  items = ((b'd' ∷ []), raw (pos 7)) ∷ ((b'i' ∷ []), instr add_five) ∷ [];
  addrs = ((b'd' ∷ []), 1) ∷ ((b'i' ∷ []), 2) ∷ [];
  addr = 4;
}

abbrev two_chunks : Chunks
two_chunks = (2, 0 ∷ 7 ∷ []) ∷ (4, five_bytes) ∷ []

seven_coded : item_encode (raw (pos 7)) (instr add_five ∷ []) ≡ ok (0 ∷ 7 ∷ [])
unfolding item_encode pack_i16 pack_u16
seven_coded = refl

item_coded : item_encode (instr add_five) [] ≡ ok five_bytes
unfolding item_encode
item_coded = five_coded

encode-AllHeld_example :
    (image : List ℕ) × (Image.encode two_items ≡ ok image)
    × (length image ≡ mem_size 2 * 2)
    × AllHeld image two_chunks
encode-AllHeld_example =
    encode-AllHeld two_items two_chunks 2 refl (omega arith)
      ((1, refl, refl), seven_coded, ((2, refl, refl), item_coded, tt))
      ((inr (omega arith), tt), (tt, tt))

-- Data at the last address but three.
abbrev full_items : Asm
full_items = record {
  labels = [];
  items = ((b'd' ∷ []), raw (pos 7)) ∷ [];
  addrs = ((b'd' ∷ []), 0xfffc) ∷ [];
  addr = 0xfffd;
}

encode-full_example : Image.encode full_items ≡ err abort
encode-full_example = encode-full full_items 0xfffc refl (omega arith)

fetch-encode_example :
    fetch 1 (load (9 ∷ 9 ∷ five_bytes) [])
    ≡ ok (instr (decoded add_five [] []), load (9 ∷ 9 ∷ five_bytes) [])
fetch-encode_example =
    fetch-encode 1 (9 ∷ 9 ∷ five_bytes) [] add_five [] [] add_five-IsEncodable five_coded
      (refl, (refl, (refl, (refl, tt))))

signed_imm-IsI16_example :
    (i : ℤ) × (signed_imm (pos 0xfffe) ≡ ok i) × IsI16 i × (low16 i ≡ low16 (pos 0xfffe))
signed_imm-IsI16_example = signed_imm-IsI16 (pos 0xfffe) (omega arith)

target-forward_example : target forward 5 (1 ∷ 5 ∷ 9 ∷ 12 ∷ []) ≡ some 9
target-forward_example =
    target-forward 5 9 (1 ∷ 5 ∷ []) (12 ∷ []) (omega arith, (omega arith, tt)) (omega arith)

target-backward_example : target backward 5 (1 ∷ 5 ∷ 9 ∷ 12 ∷ []) ≡ some 5
target-backward_example =
    target-backward 5 5 (1 ∷ []) (9 ∷ 12 ∷ []) (omega arith, (omega arith, tt)) (omega arith)

target-missing_example : target forward 9 (1 ∷ 5 ∷ []) ≡ some 5
target-missing_example = target-missing 9 5 (1 ∷ []) (omega arith, tt) (omega arith)

abbrev at_nine : Sim Host
at_nine = record (init (load [] [])) { pc = 9 }

-- `4` and `12` are the addresses of the label `1`.
abbrev labelled : Dict (List ℕ)
labelled = ((b'1' ∷ []), 4 ∷ 12 ∷ []) ∷ []

run_item-branch_example :
    (item : Item) × (s' : Sim Host) × (resolve_item labelled
        (some 9)
        (instr (branch (ref (b'@' ∷ b'1' ∷ b'b' ∷ []))))
      ≡ ok item)
    × (run_item host item at_nine ≡ ok (tt, s'))
    × (s'.pc ≡ 4)
unfolding init target
run_item-branch_example =
    run_item-branch host labelled b'@' (b'1' ∷ b'b' ∷ []) (b'1' ∷ []) backward (4 ∷ 12 ∷ []) 4
      at_nine refl refl refl refl refl (omega arith)

-- `add r1, r2, $x`
abbrev add_label : Instruction
add_label = record add_five { ops = record add_five.ops { imm = some (ref (b'$' ∷ b'x' ∷ [])) } }

abbrev high_label : Dict (List ℕ)
high_label = ((b'x' ∷ []), 0x9000 ∷ []) ∷ []

resolve_item-high_example :
    (resolve_item high_label (some 3) (instr add_label)
      ≡ ok (instr (with_address 0x9000 add_label)))
    × ((x : Error) × (item_encode (instr (with_address 0x9000 add_label)) [] ≡ err x))
resolve_item-high_example =
    resolve_item-high high_label 3 0x9000 (b'x' ∷ []) add_label [] refl refl refl (omega arith)

-- A state in which an item has address 3.
abbrev one_item : Asm
one_item = record {
  labels = [];
  items = ((b'a' ∷ []), raw (pos 1)) ∷ [];
  addrs = ((b'a' ∷ []), 3) ∷ [];
  addr = 3;
}

first_char : {x y : ℕ} → ◌≡◌ {A = Text} (x ∷ []) (y ∷ []) → x ≡ y
first_char h = cc h

other_prefix : ◌≢◌ {A = Text} (b'a' ∷ []) (b'b' ∷ [])
other_prefix h = absurd (ground (arith, first_char h))

add_item-overlap_example :
    (s' : Asm) × (add_item (b'b' ∷ []) (raw (pos 2)) 3 one_item ≡ ok s')
    × (find (b'b' ∷ []) s'.items ≡ some (raw (pos 2)))
    × (find (b'b' ∷ []) s'.addrs ≡ some 3)
    × (find (b'a' ∷ []) s'.addrs ≡ some 3)
add_item-overlap_example =
    add_item-overlap (b'b' ∷ []) (b'a' ∷ []) (raw (pos 2)) 3 one_item other_prefix refl

r3_number : reg_of (b'r' ∷ b'3' ∷ []) ≡ some 3
unfolding reg_of
r3_number = refl

instr_of-sll_sp_example :
    (i : Instruction) × (instr_of (sll_sp (b'r' ∷ b'3' ∷ [])) ≡ ok i)
    × (i.mnem ≡ Mnem.add)
    × (i.ops.imm ≡ none)
    × (size i ≡ 1)
    × (takes_imm i.ops.c ≡ true)
instr_of-sll_sp_example = instr_of-sll_sp (b'r' ∷ b'3' ∷ []) 3 r3_number

-- `cex 1`, and `nop.t`.
abbrev cex_series : List (Text × InstrTree)
cex_series =
    (
      b'1' ∷ [],
      record {
        op = real_op Mnem.cex;
        pattern = some (Operand.m ∷ []);
        cond = none;
        tokens = record { type = number; value = b'1' ∷ [] } ∷ [];
      },
    )
    ∷ (b'2' ∷ [], record { op = synonym nop; pattern = none; cond = some cond_t; tokens = [] })
    ∷ []

-- No files, and no parser.
abbrev no_source : Source
no_source = record { read = λ t. none; parent = λ t. t; join = λ t u. u; parser = λ t. none }

series_runs :
    (s' : Asm) × (parse_series (λ p q s. ok s) no_source [] cex_series 0 start ≡ ok (0, s'))
unfolding parse_tree parse_instr check_suffix instr_of parse_operands parse_operand int_digits size
    num_cond
series_runs = (_, refl)

parse_series-AreMasked_example : (is : List Instruction) × Stand cex_series is × AreMasked is
parse_series-AreMasked_example =
    parse_series-AreMasked (λ p q s. ok s) no_source [] cex_series start (series_runs.0)
      (series_runs.1)
