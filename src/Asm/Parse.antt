-- ===== src/Asm/Parse.antt =====
-- The first pass of scripts/asm.py: lines and files into items, addresses and labels. What `log`
-- prints is left out.
use idli_v.Prelude.{
  ℕ, zero, suc, ◌+◌, ◌-◌, Bool, true, false, not, ◌&&◌, ◌||◌, List, [], ◌∷◌, ◌++◌, Option, none,
  some, ℤ, pos, Text, Dict, find, put, Result, ok, err, abort, key_error, guard, of_option, ◌>>=◌,
  ◌>>◌, ltb, leb, ◌==◌, if◌then◌else◌, all,
}
use idli_v.Isa.Mnem.{Mnem, codes}
use idli_v.Isa.Encoding.{Operand}
use idli_v.Isa.Instr.{
  Ops, no_ops, Imm, int, ref, Cond, cond_t, cond_f, Instruction, Item, instr, raw, sp, num_cond,
  size,
}
use idli_v.Isa.Print.{decimal_text}
use idli_v.Isa.Synonym.{reg_of, real, substitute}
use idli_v.Asm.{
  Token, TokenType, register, immediate, label_ref, char_letter, number, Op, real_op, synonym,
  InstrTree, Directive, include, space, int_value, org, Tree, directive, label, instr_tree, Source,
  Asm,
}
use idli_v.Asm.Numbers.{int_text, int_digits, parse_imm, parse_char}

-- `addr in addrs`: the keys are the prefixes, and a text is not equal to a number.
abbrev pub is_key : ℕ → Dict ℕ → Bool
is_key addr [] = false
is_key addr ((prefix, a) ∷ rest) = false || is_key addr rest

-- `set_addr`
abbrev pub set_addr : Text → ℕ → Asm → Result Asm
set_addr prefix addr s =
    guard (not (is_key addr s.addrs)) abort >> ok (record s { addrs = put prefix addr s.addrs })

-- `items[prefix] = item`, and `set_addr`.
abbrev pub add_item : Text → Item → ℕ → Asm → Result Asm
add_item prefix item addr s = set_addr prefix addr (record s { items = put prefix item s.items })

-- The loop of `.space`: `left` items from number `i` on.
pub space_loop : ℕ → ℕ → Text → Asm → Result Asm
space_loop zero i prefix s = ok s
space_loop (suc left) i prefix s =
    add_item (prefix ++ codes ".space" ++ decimal_text i) (raw (pos 0)) s.addr s >>= λ s'.
    space_loop left (i + 1) prefix (record s' { addr = s.addr + 1 })

-- `range(n)`: empty for a negative number.
abbrev to_count : ℤ → ℕ
to_count (pos n) = n
to_count _ = 0

abbrev to_address : ℤ → Result ℕ
to_address (pos n) = if ltb 0xffff n then err abort else ok n
to_address _ = err abort

-- `parse_directive`; `parse` is what handles an included file.
unfoldable pub parse_directive :
    (Text → Text → Asm → Result Asm) → Source → Text → Text → Directive → Asm → Result Asm
parse_directive parse src dir_path prefix (include path) s = parse (src.join dir_path path) prefix s
parse_directive parse src dir_path prefix (space text) s =
    int_text text >>= λ n. space_loop (to_count n) 0 prefix s
parse_directive parse src dir_path prefix (int_value text) s = parse_imm text >>= λ value.
    add_item (prefix ++ codes ".int") (raw value) s.addr s >>= λ s'.
    ok (record s' { addr = s.addr + 1 })
parse_directive parse src dir_path prefix (org text) s =
    int_text text >>= λ n. to_address n >>= λ a. ok (record s { addr = a })

-- `name.isdigit()`
abbrev pub is_digit_text : Text → Bool
is_digit_text [] = false
is_digit_text (c ∷ cs) = all (λ x. leb b'0' x && leb x b'9') (c ∷ cs)

-- `parse_label`
abbrev label_addrs : Text → Option (List ℕ) → ℕ → Result (List ℕ)
label_addrs name none addr = ok (addr ∷ [])
label_addrs name (some addrs) addr =
    if is_digit_text name then ok (addrs ++ addr ∷ []) else err abort

unfoldable pub parse_label : Text → Asm → Result Asm
parse_label name s = label_addrs name (find name s.labels) s.addr >>= λ addrs.
    ok (record s { labels = put name addrs s.labels })

-- A C operand.
abbrev pub with_imm : Ops → Imm → Ops
with_imm o i = record o { c = some sp; imm = some i }

unfoldable pub parse_c : TokenType → Text → Ops → Result Ops
parse_c register text o = of_option key_error (reg_of text) >>= λ r.
    (if r == sp then err abort else ok (record o { c = some r }))
parse_c immediate text o = parse_imm text >>= λ i. ok (with_imm o (int i))
parse_c label_ref text o = ok (with_imm o (ref text))
parse_c char_letter text o = parse_char text >>= λ c. ok (with_imm o (int (pos c)))
parse_c number text o = err abort

abbrev checked : Bool → ℕ → Result ℕ
checked good n = if good then ok n else err abort

-- One operand of the loop.
unfoldable pub parse_operand : Operand → Token → Ops → Result Ops
parse_operand Operand.r t o =
    of_option key_error (reg_of t.value) >>= λ v. ok (record o { r = some v })
parse_operand Operand.s t o =
    of_option key_error (reg_of t.value) >>= λ v. ok (record o { s = some v })
parse_operand Operand.a t o =
    of_option key_error (reg_of t.value) >>= λ v. ok (record o { a = some v })
parse_operand Operand.b t o =
    of_option key_error (reg_of t.value) >>= λ v. ok (record o { b = some v })
parse_operand Operand.c t o = parse_c t.type t.value o
parse_operand Operand.m t o = int_digits t.value >>= λ v.
    checked (leb 1 v && leb v 7) v >>= λ v'. ok (record o { m = some v' })
parse_operand Operand.j t o =
    int_digits t.value >>= λ v. checked (leb v 15) v >>= λ v'. ok (record o { j = some v' })
parse_operand Operand.n t o =
    int_digits t.value >>= λ v. checked (leb v 3) v >>= λ v'. ok (record o { n = some v' })

-- `zip(op_pattern, tokens)`
unfoldable pub parse_operands : List Operand → List Token → Ops → Result Ops
parse_operands [] tokens o = ok o
parse_operands (k ∷ ks) [] o = ok o
parse_operands (k ∷ ks) (t ∷ ts) o = parse_operand k t o >>= λ o'. parse_operands ks ts o'

-- `next(reversed(items.values()))`, without the key.
abbrev pub last_item : Dict Item → Option Item
last_item [] = none
last_item ((k, item) ∷ []) = some item
last_item ((k, item) ∷ rest) = last_item rest

abbrev is_cex : Mnem → Bool
is_cex Mnem.cex = true
is_cex _ = false

-- Whether the last item is a compare that sets the conditional state.
abbrev pub sets_true : Option Item → Bool
sets_true none = false
sets_true (some (raw d)) = false
sets_true (some (instr i)) = not (is_cex i.mnem) && not (num_cond i == 0)

abbrev pub is_true : Cond → Bool
is_true cond_t = true
is_true cond_f = false

-- The checks on the condition suffix.
unfoldable pub check_suffix : Option Cond → ℕ → Dict Item → Result (Unit {0})
check_suffix (some c) need items =
    guard (not (need == 0)) abort >> guard (not (sets_true (last_item items)) || is_true c) abort
check_suffix none need items = guard (need == 0) abort

abbrev pub operands_of : Option (List Operand) → List Token → Result Ops
operands_of none tokens = ok no_ops
operands_of (some pattern) tokens = parse_operands pattern tokens no_ops

abbrev pub make_instr : Op → Ops → Option Cond → Result Instruction
make_instr (real_op k) o c = ok (record { mnem = k; ops = o; cond = c; cex_mask = none })
make_instr (synonym y) o c =
    substitute y o >>= λ o'. ok (record { mnem = real y; ops = o'; cond = c; cex_mask = none })

-- The instruction of a tree.
unfoldable pub instr_of : InstrTree → Result Instruction
unfolding parse_operands
instr_of tree = do o ← operands_of tree.pattern tree.tokens; make_instr tree.op o tree.cond

-- `parse_instr`: how many instructions have to follow with a suffix, and the size.
unfoldable pub parse_instr : InstrTree → Text → ℕ → Asm → Result ((ℕ × ℕ) × Asm)
parse_instr tree prefix need s = do
  check_suffix tree.cond need s.items
  i ← instr_of tree
  guard (num_cond i == 0 || need == 0) abort
  s' ← add_item prefix (instr i) s.addr s
  ok ((num_cond i, size i), s')

-- The count behind an instruction.
abbrev pub next_need : ℕ → ℕ → ℕ
next_need new need = if new == 0 then need - 1 else new

abbrev pub step_instr : ℕ → Result ((ℕ × ℕ) × Asm) → Result (ℕ × Asm)
step_instr need (err e) = err e
step_instr need (ok ((new, size), s)) = ok (next_need new need, record s { addr = s.addr + size })

abbrev keep_need : ℕ → Result Asm → Result (ℕ × Asm)
keep_need need (err e) = err e
keep_need need (ok s) = ok (need, s)

-- One tree of a line.
unfoldable pub parse_tree :
    (Text → Text → Asm → Result Asm) → Source → Text → Text → Tree → ℕ → Asm → Result (ℕ × Asm)
unfolding parse_directive parse_label parse_instr
parse_tree parse src dir_path prefix (directive d) need s =
    keep_need need (parse_directive parse src dir_path prefix d s)
parse_tree parse src dir_path prefix (label name) need s = keep_need need (parse_label name s)
parse_tree parse src dir_path prefix (instr_tree t) need s =
    step_instr need (parse_instr t prefix need s)

pub parse_trees :
    (Text → Text → Asm → Result Asm) → Source → Text → Text → List Tree → ℕ → Asm → Result (ℕ × Asm)
parse_trees parse src dir_path prefix [] need s = ok (need, s)
parse_trees parse src dir_path prefix (t ∷ ts) need s =
    elim (parse_tree parse src dir_path prefix t need s) [
      | err e ↦ err e
      | ok (need', s') ↦ parse_trees parse src dir_path prefix ts need' s'
    ]

-- `parse_line`
unfoldable pub parse_line :
    (Text → Text → Asm → Result Asm) → Source → Text → Text → Text → ℕ → Asm → Result (ℕ × Asm)
unfolding parse_trees
parse_line parse src dir_path line prefix need s = of_option abort (src.parser line) >>= λ trees.
    parse_trees parse src dir_path prefix trees need s
