-- ===== src/Asm/Labels.antt =====
-- `resolve_labels` of scripts/asm.py.
pub mod Nearest
pub mod Arrive
pub mod Absolute
use mathlib.Core.List.{reverse}
use idli_v.Prelude.{
  ℕ, zero, suc, ◌+◌, Bool, true, false, ◌&&◌, ◌||◌, List, [], ◌∷◌, Option, none, some, ℤ, pos,
  sub_ℕ, Text, Dict, find, Result, ok, err, abort, key_error, type_error, index_error, exception,
  of_option, ◌>>=◌, ltb, leb, ◌==◌, if◌then◌else◌,
}
use idli_v.Isa.Instr.{Ops, Imm, int, ref, Instruction, Item, instr, raw}
use idli_v.Asm.{Asm}
use idli_v.Asm.Parse.{is_digit_text}

-- `search`: `None` is `any_way`.
pub data Search : Type 0 where
  forward backward any_way : Search

-- All but the last character, and the last.
abbrev pub split_last : Text → Option (Text × ℕ)
split_last [] = none
split_last (c ∷ []) = some ([], c)
split_last (c ∷ d ∷ cs) = elim (split_last (d ∷ cs)) [
  | none ↦ none
  | some (init, l) ↦ some (c ∷ init, l)
]

abbrev direction : ℕ → Search
direction l = if l == b'f' then forward else backward

-- The direction, and the name without it.
abbrev pub split_name : Text → Search × Text
split_name name = elim (split_last name) [
  | none ↦ (any_way, name)
  | some (init, l) ↦
      if is_digit_text init && (l == b'f' || l == b'b')
      then (direction l, init)
      else (any_way, name)
]

-- `for addr in label: if addr > pc: break`
abbrev pub first_above : ℕ → List ℕ → Option ℕ
first_above pc [] = none
first_above pc (a ∷ []) = some a
first_above pc (a ∷ b ∷ rest) = if ltb pc a then some a else first_above pc (b ∷ rest)

-- `for addr in reversed(label): if addr <= pc: break`, over the reversed list.
abbrev pub first_up_to : ℕ → List ℕ → Option ℕ
first_up_to pc [] = none
first_up_to pc (a ∷ []) = some a
first_up_to pc (a ∷ b ∷ rest) = if leb a pc then some a else first_up_to pc (b ∷ rest)

unfoldable pub target : Search → ℕ → List ℕ → Option ℕ
target forward pc label = first_above pc label
target _ pc label = first_up_to pc (reverse label)

-- An absolute reference. With several addresses the message itself raises: it takes pairs out of
-- a list of numbers.
abbrev only : List ℕ → Search → Result ℤ
only [] search = err index_error
only (a ∷ []) any_way = ok (pos a)
only (a ∷ []) search = err abort
only (a ∷ b ∷ rest) search = err type_error

abbrev from_here : ℕ → Option ℕ → Result ℤ
from_here pc none = err exception
from_here pc (some addr) = ok (sub_ℕ addr (pc + 1))

-- The value of a reference at `pc`.
abbrev with_label : ℕ → Search → ℕ → Option (List ℕ) → Result ℤ
with_label mark search pc none = err abort
with_label mark search pc (some label) =
    if mark == b'$' then only label search else from_here pc (target search pc label)

unfoldable pub resolve_ref : Dict (List ℕ) → ℕ → Text → Result ℤ
resolve_ref labels pc [] = err index_error
resolve_ref labels pc (mark ∷ name) =
    let (search, short) = split_name name in with_label mark search pc (find short labels)

abbrev set_imm : Instruction → Result ℤ → Result Item
set_imm i (err e) = err e
set_imm i (ok z) = ok (instr (record i { ops = record i.ops { imm = some (int z) } }))

abbrev resolve_imm : Dict (List ℕ) → Option ℕ → Instruction → Option Imm → Result Item
resolve_imm labels none i (some (ref text)) = err key_error
resolve_imm labels (some pc) i (some (ref text)) = set_imm i (resolve_ref labels pc text)
resolve_imm labels pc i _ = ok (instr i)

abbrev pub resolve_item : Dict (List ℕ) → Option ℕ → Item → Result Item
resolve_item labels pc (raw d) = ok (raw d)
resolve_item labels pc (instr i) = resolve_imm labels pc i i.ops.imm

pub resolve_items : Dict (List ℕ) → Dict ℕ → Dict Item → Result (Dict Item)
resolve_items labels addrs [] = ok []
resolve_items labels addrs ((prefix, item) ∷ rest) =
    resolve_item labels (find prefix addrs) item >>= λ item'.
    resolve_items labels addrs rest >>= λ rest'. ok ((prefix, item') ∷ rest')

abbrev if_labels : Dict (List ℕ) → Dict Item → Result (Dict Item) → Result (Dict Item)
if_labels [] items resolved = ok items
if_labels (l ∷ labels) items resolved = resolved

-- `resolve_labels`
unfoldable pub resolve_labels : Asm → Result Asm
unfolding resolve_ref resolve_items
resolve_labels s = if_labels s.labels s.items (resolve_items s.labels s.addrs s.items) >>= λ items.
    ok (record s { items = items })
