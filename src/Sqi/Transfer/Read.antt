-- ===== src/Sqi/Transfer/Read.antt =====
-- The read transfers of scripts/sqi.py, and a write that a read follows.
use idli_v.Prelude.{
  ℕ, suc, ◌+◌, ◌*◌, ◌/◌, ◌%◌, ◌^◌, ◌<◌, ◌≤◌, ◌≡◌, ◌≢◌, refl, sym, ◌∙◌, arith, true, false, List, [],
  ◌∷◌, none, some, ok, err, Result, length,
}
use idli_v.Sqi.{Memory, Bytes, update, Phase, read1, read0, dummy1, cycle, read_mode, write_mode}
use idli_v.Sqi.Transfer.{
  Trace, transfer, header, nibbles_of, next, store, AreBytes, add_cycle-quiet, ready, selected,
  header_read,
}
use idli_v.Sqi.Transfer.Write.{update_self, write_transfer}

-- The data from an address on holds these bytes.
abbrev pub Holds : ℕ → List ℕ → Bytes → Type 0
Holds a [] c = Unit {0}
Holds a (b ∷ bs) c = (c a ≡ some b) × Holds (next a) bs c

-- The phases after which a rising edge begins a byte.
abbrev IsBeforeHigh : Phase → Type 0
IsBeforeHigh dummy1 = Unit {0}
IsBeforeHigh read1 = Unit {0}
IsBeforeHigh _ = ⊥

high_cycle :
    (a sio b : ℕ) (c : Bytes) (phase : Phase)
    → IsBeforeHigh phase
    → c a ≡ some b
    → cycle false sio (ready read_mode a phase c)
      ≡ ok (record {
        wrote = none;
        nibble = some (b / 2 ^ 4 % 16);
        after = ready read_mode a read0 c;
      })
unfolding cycle
high_cycle a sio b c dummy1 p h = rw h refl
high_cycle a sio b c read1 p h = rw h refl
high_cycle a sio b c phase p h = absurd p

low_cycle :
    (a sio b : ℕ) (c : Bytes)
    → c a ≡ some b
    → cycle false sio (ready read_mode a read0 c)
      ≡ ok (record {
        wrote = none;
        nibble = some (b % 16);
        after = ready read_mode (next a) read1 c;
      })
unfolding cycle
low_cycle a sio b c h = rw h refl

-- The data phase of a read drives the nibbles of the bytes, whatever the inputs are.
read_data :
    (a : ℕ) (bs inputs : List ℕ) (c : Bytes) (phase : Phase)
    → IsBeforeHigh phase
    → length inputs ≡ 2 * length bs
    → AreBytes bs
    → Holds a bs c
    → (m : Memory) × (transfer inputs (ready read_mode a phase c)
        ≡ ok (record { writes = []; nibbles = nibbles_of bs; after = m }))
      × (m.content ≡ c)
unfolding cycle
read_data a [] [] c phase p e b h = (ready read_mode a phase c, refl, refl)
read_data a [] (x ∷ inputs) c phase p e b h = absurd (omega arith)
read_data a (x ∷ bs) [] c phase p e b h = absurd (omega arith)
read_data a (x ∷ bs) (u ∷ []) c phase p e b h = absurd (omega arith)
read_data a (x ∷ bs) (u ∷ v ∷ inputs) c phase p e b h =
    let (m, rest, same) = read_data (next a) bs inputs c read1 tt (omega arith) b.1 h.1 in
    let high : x / 2 ^ 4 % 16 ≡ x / 16 = omega (arith, b.0) in
    (m, rw (high_cycle a u x c phase p h.0, low_cycle a v x c h.0, rest, high) refl, same)

-- A read transfer drives the nibbles of the bytes that stand at the address and behind it, after
-- one cycle more than the header's, and changes no data.
pub read_transfer :
    (a : ℕ) (bs inputs : List ℕ) (c : Bytes) (x : ℕ)
    → a < 2 ^ 16
    → length inputs ≡ 2 * length bs
    → AreBytes bs
    → Holds a bs c
    → (m : Memory) × (transfer (header read_mode a (x ∷ inputs)) (selected c)
        ≡ ok (record { writes = []; nibbles = nibbles_of bs; after = m }))
      × (m.content ≡ c)
unfolding cycle
read_transfer a bs inputs c x h e b held =
    let (m, rest, same) = read_data a bs inputs c dummy1 tt e b held in
    (m, header_read a (x ∷ inputs) c h ∙ rw (rest, add_cycle-quiet) refl, same)

next-add : (a i : ℕ) → (next a + i) % 2 ^ 16 ≡ (a + suc i) % 2 ^ 16
next-add a i = omega arith

update_other : (c : Bytes) (a b x : ℕ) → a ≢ x → update c a b x ≡ c x
update_other c a b x h = ground (arith, h)

store-outside :
    (a x : ℕ) (bs : List ℕ) (c : Bytes)
    → ((i : ℕ) → i < length bs → (a + i) % 2 ^ 16 ≢ x)
    → a < 2 ^ 16
    → store a bs c x ≡ c x
store-outside a x [] c h k = refl
store-outside a x (b ∷ bs) c h k =
    store-outside (next a) x bs (update c a b)
      (λ i p e. h (suc i) (omega arith) (sym (next-add a i) ∙ e)) (omega arith)
    ∙ update_other c a b x (λ e. h 0 (omega arith) (omega arith))

Holds-store :
    (a : ℕ) (bs : List ℕ) (c : Bytes) → a < 2 ^ 16 → length bs ≤ 2 ^ 16 → Holds a bs (store a bs c)
Holds-store a [] c h k = tt
Holds-store a (b ∷ bs) c h k = (
  store-outside (next a) a bs (update c a b) (λ i p e. omega arith) (omega arith)
      ∙ update_self c a b,
  Holds-store (next a) bs (update c a b) (omega arith) (omega arith),
)

-- Deselecting the memory ends a transfer: a cycle with CS high, whatever the input, writes and
-- drives nothing, and leaves the data.
abbrev pub deselect : Result Trace → Result Memory
deselect (err e) = err e
deselect (ok t) = elim (cycle true 0 t.after) [ err e ↦ err e | ok c ↦ ok c.after ]

-- A write transfer, a deselection and a read transfer from the same address, in a memory that
-- was deselected.
abbrev pub write_then_read : ℕ → List ℕ → List ℕ → Bytes → Result Trace
write_then_read a bs inputs c =
    elim (deselect (transfer (header write_mode a (nibbles_of bs)) (selected c))) [
      | err e ↦ err e
      | ok m ↦ transfer (header read_mode a inputs) m
    ]

-- The bytes that a write transfer stores, at most as many as the memory has, are the bytes that a
-- read transfer from the same address drives, in nibbles, after a deselection; the read needs
-- one cycle more than the nibbles and the header, the values of its inputs do not matter, and it
-- leaves the bytes where they are.
pub read-write_transfer :
    (a : ℕ) (bs inputs : List ℕ) (c : Bytes)
    → a < 2 ^ 16
    → length bs ≤ 2 ^ 16
    → length inputs ≡ suc (2 * length bs)
    → AreBytes bs
    → (m : Memory) × (write_then_read a bs inputs c
        ≡ ok (record { writes = []; nibbles = nibbles_of bs; after = m }))
      × (m.content ≡ store a bs c)
unfolding cycle
read-write_transfer a bs [] c h k e b = absurd (omega arith)
read-write_transfer a bs (x ∷ inputs) c h k e b =
    let (m, read, same) =
      read_transfer a bs inputs (store a bs c) x h (omega arith) b (Holds-store a bs c h k) in
    (m, rw (write_transfer a bs c h b, write_then_read) read, same)
