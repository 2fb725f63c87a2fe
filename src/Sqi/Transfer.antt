-- ===== src/Sqi/Transfer.antt =====
-- Whole transfers of scripts/sqi.py: a header with the mode and the address, then the data.
pub mod Write
pub mod Read
use mathlib.Core.Path.{fun_ext}
use idli_v.Prelude.{
  ℕ, zero, suc, ◌+◌, ◌*◌, ◌/◌, ◌%◌, ◌^◌, ◌<◌, ◌≤◌, ◌≡◌, ◌≢◌, refl, sym, ap, ◌∙◌, arith, bit_or,
  Bool, true, false, List, [], ◌∷◌, ◌++◌, Option, none, some, ok, err, Result, length, ◌==◌,
  if◌then◌else◌, eq→==,
}
use idli_v.Prelude.Fields.{bit_or_fields}
use idli_v.Sqi.{
  Memory, Bytes, update, Phase, reset, write0, write1, read1, read0, dummy0, dummy1, or_zero, cycle,
  Cycle, shift_addr, read_mode, write_mode,
}

-- What a run of cycles wrote and drove, and the memory after it.
pub record Trace : Type 0 where
  pub writes : List (ℕ × ℕ)
  pub nibbles : List ℕ
  pub after : Memory

abbrev pub push {ℓ} : {A : Type ℓ} → Option A → List A → List A
push none xs = xs
push (some x) xs = x ∷ xs

abbrev pub add_cycle : Cycle → Result Trace → Result Trace
add_cycle c (err e) = err e
add_cycle c (ok t) =
    ok (record t { writes = push c.wrote t.writes; nibbles = push c.nibble t.nibbles })

-- The cycles for these inputs, with CS low.
abbrev pub transfer : List ℕ → Memory → Result Trace
transfer [] m = ok (record { writes = []; nibbles = []; after = m })
transfer (sio ∷ rest) m = elim (cycle false sio m) [
  | err e ↦ err e
  | ok c ↦ add_cycle c (transfer rest c.after)
]

abbrev pub header : ℕ → ℕ → List ℕ → List ℕ
header mode a rest = 0 ∷ mode ∷ (a / 4096) ∷ (a / 256 % 16) ∷ (a / 16 % 16) ∷ (a % 16) ∷ rest

-- The nibbles of bytes, the high one first.
abbrev pub nibbles_of : List ℕ → List ℕ
nibbles_of [] = []
nibbles_of (b ∷ bs) = (b / 16) ∷ (b % 16) ∷ nibbles_of bs

abbrev pub next : ℕ → ℕ
next a = (a + 1) % 2 ^ 16

abbrev pub advance : ℕ → List ℕ → ℕ
advance a [] = a
advance a (b ∷ bs) = advance (next a) bs

-- The bytes at an address and those behind it, with the wrap at the end of the memory.
abbrev pub store : ℕ → List ℕ → Bytes → Bytes
store a [] c = c
store a (b ∷ bs) c = store (next a) bs (update c a b)

abbrev pub writes_of : ℕ → List ℕ → List (ℕ × ℕ)
writes_of a [] = []
writes_of a (b ∷ bs) = (a, b) ∷ writes_of (next a) bs

abbrev pub AreBytes : List ℕ → Type 0
AreBytes [] = Unit {0}
AreBytes (b ∷ bs) = (b < 2 ^ 8) × AreBytes bs

shift_addr_lem : (a sio : ℕ) → shift_addr a sio ≡ (a * 16 + sio % 16) % 65536
shift_addr_lem a sio = ap (λ (t : ℕ). t % 65536) (bit_or_fields 4 a (sio % 16) (omega arith))

-- Four nibbles make the address.
shift_addr_all :
    (a : ℕ)
    → a < 2 ^ 16
    → shift_addr
        (shift_addr (shift_addr (shift_addr 0 (a / 4096)) (a / 256 % 16)) (a / 16 % 16))
        (a % 16)
      ≡ a
shift_addr_all a h =
    shift_addr_lem (shift_addr (shift_addr (shift_addr 0 (a / 4096)) (a / 256 % 16)) (a / 16 % 16))
      (a % 16)
    ∙ rw (shift_addr_lem (shift_addr (shift_addr 0 (a / 4096)) (a / 256 % 16)) (a / 16 % 16)) (
        rw (shift_addr_lem (shift_addr 0 (a / 4096)) (a / 256 % 16))
          (rw (shift_addr_lem 0 (a / 4096)) (omega arith)))

pub add_cycle-quiet :
    (m : Memory) (r : Result Trace)
    → add_cycle (record { wrote = none; nibble = none; after = m }) r ≡ r
add_cycle-quiet m (ok t) = refl
add_cycle-quiet m (err e) = refl

-- The memory after a header of a mode, before any data.
abbrev pub ready : ℕ → ℕ → Phase → Bytes → Memory
ready mode a phase c = record { content = c; addr = some a; phase = phase; mode = some mode }

abbrev pub selected : Bytes → Memory
selected c = record { content = c; addr = none; phase = reset; mode = none }

pub header_write :
    (a : ℕ) (rest : List ℕ) (c : Bytes)
    → a < 2 ^ 16
    → transfer (header write_mode a rest) (selected c) ≡ transfer rest (ready write_mode a write0 c)
unfolding cycle
header_write a rest c h =
    simp add_cycle-quiet
      (ap (λ (x : ℕ). transfer rest (ready write_mode x write0 c)) (shift_addr_all a h))

pub header_read :
    (a : ℕ) (rest : List ℕ) (c : Bytes)
    → a < 2 ^ 16
    → transfer (header read_mode a rest) (selected c) ≡ transfer rest (ready read_mode a dummy0 c)
unfolding cycle
header_read a rest c h =
    simp add_cycle-quiet
      (ap (λ (x : ℕ). transfer rest (ready read_mode x dummy0 c)) (shift_addr_all a h))
