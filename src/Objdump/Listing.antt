-- ===== src/Objdump/Listing.antt =====
-- The listing of scripts/objdump.py, and `merge_same`, which shortens it.
pub mod Runs
use idli_v.Prelude.{
  ℕ, zero, suc, ◌+◌, ◌-◌, ◌*◌, Bool, true, false, not, ◌&&◌, ◌||◌, List, [], ◌∷◌, ◌++◌, map, Option,
  none, some, pos, Text, list_eq, length, replicate, Result, ok, err, assertion, type_error,
  struct_error, ltb, leb, ◌==◌, if◌then◌else◌, ◌>>=◌,
}
use idli_v.Isa.Mnem.{codes}
use idli_v.Isa.Instr.{Item, item_size}
use idli_v.Isa.Print.{hex4, item_text}
use idli_v.Objdump.{decode}

-- A line of the listing with its size.
pub record Entry : Type 0 where
  pub line : Text
  pub size : ℕ

-- `struct.unpack_from('>H', data)[0]`, printed.
abbrev word_text : List ℕ → Result Text
word_text (hi ∷ lo ∷ rest) = ok (hex4 (pos (hi * 256 + lo)))
word_text _ = err struct_error

abbrev second_word : ℕ → List ℕ → Result Text
second_word size (x ∷ y ∷ rest) =
    if leb size 1 then ok [] else word_text rest >>= (λ t. ok (b' ' ∷ t))
second_word size _ = if leb size 1 then ok [] else err struct_error

-- `{raw:12}`
abbrev pad12 : Text → Text
pad12 t = t ++ replicate (12 - length t) b' '

abbrev drop_words : ℕ → List ℕ → List ℕ
drop_words zero bytes = bytes
drop_words (suc n) (x ∷ y ∷ rest) = drop_words n rest
drop_words (suc n) _ = []

-- The loop over the items, with the data from `pc` on.
unfoldable pub list_items : ℕ → List ℕ → List Item → Result (List Entry)
list_items pc bytes [] = ok []
list_items pc bytes (item ∷ items) = do
  first ← word_text bytes
  second ← second_word (item_size item) bytes
  text ← item_text item
  let line = hex4 (pos pc) ++ (codes ":  " ++ (pad12 (first ++ second) ++ (codes "  " ++ text)))
  rest ← list_items (pc + item_size item) (drop_words (item_size item) bytes) items
  ok (record { line = line; size = item_size item } ∷ rest)

-- `objdump`, of the bytes of the file.
unfoldable pub objdump : List ℕ → Result (List Entry)
unfolding list_items
objdump bytes = decode bytes none >>= λ items. list_items 0 bytes items

-- The digit of the pattern, if it is one.
abbrev hex_digit : ℕ → Option ℕ
hex_digit c =
    if leb b'0' c && leb c b'9'
    then some (c - b'0')
    else if leb b'a' c && leb c b'f'
    then some (c - b'a' + 10)
    else none

pub record Parsed : Type 0 where
  pub addr : ℕ
  pub value : Text
  pub size : ℕ

-- The digits up to the colon, one at least; `seen` says whether there was one.
abbrev split_line : Bool → ℕ → ℕ → Text → Result Parsed
split_line seen addr size [] = err assertion
split_line seen addr size (c ∷ cs) = elim (hex_digit c) [
  | some d ↦ split_line true (addr * 16 + d) size cs
  | none ↦
      if seen && c == b':'
      then ok (record { addr = addr; value = cs; size = size })
      else err assertion
]

-- `pattern.match(line)`, for a line without a line break.
abbrev match_line : Entry → Result Parsed
match_line e = split_line false 0 e.size e.line

unfoldable pub match_lines : List Entry → Result (List Parsed)
match_lines [] = ok []
match_lines (e ∷ es) = match_line e >>= λ p. match_lines es >>= λ ps. ok (p ∷ ps)

-- An entry of `counts`.
pub record Group : Type 0 where
  pub addr : ℕ
  pub value : Text
  pub size : ℕ
  pub count : ℕ

abbrev pub open_group : Parsed → Group
open_group p = record { addr = p.addr; value = p.value; size = p.size; count = 1 }

-- The loop that counts, with the open group.
unfoldable pub count_from : Group → List Parsed → List Group
count_from g [] = g ∷ []
count_from g (p ∷ ps) =
    let more = count_from (record g { count = g.count + 1 }) ps in
    let other = count_from (open_group p) ps in if list_eq p.value g.value then more else g ∷ other

-- The groups. Without a line the group that is closed has no address, and printing it raises.
unfoldable pub count_lines : List Parsed → Result (List Group)
unfolding count_from
count_lines [] = err type_error
count_lines (p ∷ ps) = ok (count_from (open_group p) ps)

abbrev line_at : ℕ → Text → Text
line_at addr value = hex4 (pos addr) ++ b':' ∷ value

abbrev repeat_lines : ℕ → ℕ → ℕ → Text → List Text
repeat_lines zero addr size value = []
repeat_lines (suc n) addr size value = line_at addr value ∷ repeat_lines n (addr + size) size value

abbrev print_group : Group → List Text
print_group g =
    if ltb g.count 3
    then repeat_lines g.count g.addr g.size g.value
    else line_at g.addr g.value
      ∷ (b' ' ∷ b'*' ∷ [])
      ∷ line_at (g.addr + g.size + g.size * (g.count - 2)) g.value
      ∷ []

abbrev print_groups : List Group → List Text
print_groups [] = []
print_groups (g ∷ gs) = print_group g ++ print_groups gs

-- `merge_same`
unfoldable pub merge_same : List Entry → Result (List Text)
unfolding match_lines count_lines
merge_same entries = match_lines entries >>= λ ps. count_lines ps >>= λ gs. ok (print_groups gs)
