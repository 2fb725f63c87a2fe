-- ===== src/Examples/Code.antt =====
-- Encodings and binaries at concrete inputs.
use idli_v.Prelude.{ℕ, ◌≤◌, ◌≡◌, ◌++◌, refl, arith, List, [], ◌∷◌, none, some, ok, pos, length}
use idli_v.Isa.Mnem.{Mnem}
use idli_v.Isa.Encoding.{Operand, pattern, count}
use idli_v.Isa.Instr.{
  no_ops, int, Cond, cond_t, cond_f, Instruction, Item, instr, sp, encode, encode_mask,
}
use idli_v.Isa.Instr.Encode.{Fits}
use idli_v.Isa.Instr.Mask.{mask_value, encode_mask-Follow}
use idli_v.Objdump.{decode_item, matches, next_state, pop_cond}
use idli_v.Objdump.Matches.{length-matches-le}
use idli_v.Objdump.RoundTrip.{IsEncodable, code_of, decoded, decode-encode}
use idli_v.Objdump.Listing.{Parsed, Group, count_lines}
use idli_v.Objdump.Listing.Runs.{expand, expand-count_lines}
use idli_v.Split.{split}
use idli_v.Split.Merge.{merge_all, words, merge_all-split}

-- `add r1, r2, 5`
abbrev pub add_five : Instruction
add_five = record {
  mnem = Mnem.add;
  ops = record no_ops { a = some 1; b = some 2; c = some sp; imm = some (int (pos 5)) };
  cond = none;
  cex_mask = none;
}

add_five-Fits : (l : Operand) → Fits (count l (pattern Mnem.add)) (code_of add_five.ops [] l)
unfolding pattern
add_five-Fits Operand.a = omega arith
add_five-Fits Operand.b = omega arith
add_five-Fits Operand.c = omega arith
add_five-Fits _ = tt

pub add_five-IsEncodable : IsEncodable add_five [] []
add_five-IsEncodable = record {
  fits = add_five-Fits;
  follow = tt;
  counted = refl;
  imm = omega arith;
}

decode-encode_example :
    (bytes : List ℕ) × (encode add_five [] ≡ ok bytes)
    × ((state : List Cond) (rest : List ℕ)
        → decode_item (bytes ++ rest) state
          ≡ ok (record {
            item = instr (decoded add_five [] state);
            state = next_state (decoded add_five [] state) [] (pop_cond state).1;
            rest = rest;
          }))
decode-encode_example = decode-encode add_five [] [] add_five-IsEncodable

length-matches-le_example : length (matches 0x1234) ≤ 1
length-matches-le_example = length-matches-le 0x1234

-- A follower with a condition.
abbrev only_if : Cond → Item
only_if x = instr (record add_five { cond = some x })

encode_mask-Follow_example :
    encode_mask 2 (only_if cond_t ∷ only_if cond_f ∷ []) ≡ ok (mask_value (cond_t ∷ cond_f ∷ []))
encode_mask-Follow_example =
    encode_mask-Follow (cond_t ∷ cond_f ∷ []) (only_if cond_t ∷ only_if cond_f ∷ [])
      (refl, (refl, tt))

merge_all-split_example :
    (los : List ℕ) × (his : List ℕ) × (split (0x12 ∷ 0x34 ∷ []) ≡ ok (los, his))
    × (merge_all los his ≡ words (0x12 ∷ 0x34 ∷ []))
merge_all-split_example = merge_all-split (0x12 ∷ 0x34 ∷ []) (omega arith, omega arith, tt)

-- Three lines with one text, and another one.
abbrev line_of : ℕ → ℕ → Parsed
line_of addr c = record { addr = addr; value = c ∷ []; size = 1 }

expand-count_lines_example :
    (gs : List Group) × (count_lines
        (line_of 4 b'x' ∷ line_of 5 b'x' ∷ line_of 6 b'x' ∷ line_of 7 b'y' ∷ [])
      ≡ ok gs)
    × (expand gs ≡ line_of 4 b'x' ∷ line_of 5 b'x' ∷ line_of 6 b'x' ∷ line_of 7 b'y' ∷ [])
expand-count_lines_example =
    expand-count_lines (λ v. 1) 4 (line_of 4 b'x')
      (line_of 5 b'x' ∷ line_of 6 b'x' ∷ line_of 7 b'y' ∷ [])
      (refl, refl, (refl, refl, (refl, refl, (refl, refl, tt))))
