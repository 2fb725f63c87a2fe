-- ===== src/Asm/Labels/Absolute.antt =====
-- Absolute references of scripts/asm.py: what becomes of an address of the upper half.
use idli_v.Prelude.{
  struct_error, ℕ, ◌^◌, ◌≤◌, ◌≡◌, refl, arith, List, [], ◌∷◌, some, pos, Text, Dict, find, ok, err,
  Error, Result-cases, inl, inr, ◌>>=◌,
}
use idli_v.Isa.Instr.{
  Instruction, Item, instr, int, ref, encode, item_encode, pack_i16, encode_word, pack_u16,
  encode_imm,
}
use idli_v.Asm.Labels.{any_way, split_name, resolve_ref, resolve_item}

-- The instruction with an absolute address for its immediate.
abbrev pub with_address : ℕ → Instruction → Instruction
with_address a i = record i { ops = record i.ops { imm = some (int (pos a)) } }

encode-fails :
    (i : Instruction) (followers : List Item) {e : Error}
    → encode_imm i.ops.imm ≡ err e
    → (x : Error) × (encode i followers ≡ err x)
unfolding encode
encode-fails i followers {e} h = elim (Result-cases (encode_word i followers)) [
  | inl (x, w) ↦ (x, rw (w, ◌>>=◌) refl)
  | inr (word, w) ↦ elim (Result-cases (pack_u16 word)) [
    | inl (x, p) ↦ (x, rw (w, ◌>>=◌) (rw (p, ◌>>=◌) refl))
    | inr (out, p) ↦ (e, rw (w, ◌>>=◌) (rw (p, ◌>>=◌) (rw (h, ◌>>=◌) refl)))
  ]
]

pack_i16-high : (a : ℕ) → 2 ^ 15 ≤ a → (x : Error) × (pack_i16 (pos a) ≡ err x)
unfolding pack_i16
pack_i16-high a h = (struct_error, ground arith)

-- An absolute reference to a label at an address of the upper half is resolved, but the
-- instruction that it becomes cannot be encoded: the immediate is packed as a signed word.
pub resolve_item-high :
    (labels : Dict (List ℕ)) (pc a : ℕ) (name : Text) (i : Instruction) (followers : List Item)
    → i.ops.imm ≡ some (ref (b'$' ∷ name))
    → split_name name ≡ (any_way, name)
    → find name labels ≡ some (a ∷ [])
    → 2 ^ 15 ≤ a
    → (resolve_item labels (some pc) (instr i) ≡ ok (instr (with_address a i)))
      × ((x : Error) × (item_encode (instr (with_address a i)) followers ≡ err x))
unfolding resolve_ref item_encode
resolve_item-high labels pc a name i followers m s f h =
    let (x, p) = pack_i16-high a h in
    (rw (m, s, f) refl, encode-fails (with_address a i) followers p)
