-- ===== src/Sqi/Transfer/Write.antt =====
-- The write transfers of scripts/sqi.py.
use mathlib.Core.Path.{fun_ext}
use idli_v.Prelude.{
  ℕ, ◌*◌, ◌/◌, ◌%◌, ◌^◌, ◌<◌, ◌≡◌, refl, ap, ◌∙◌, arith, bit_or, false, List, [], ◌∷◌, none, some,
  ok,
}
use idli_v.Prelude.Fields.{bit_or_fields}
use idli_v.Sqi.{Memory, Bytes, update, write0, write1, or_zero, cycle, Cycle, write_mode}
use idli_v.Sqi.Transfer.{
  add_cycle, transfer, header, nibbles_of, next, advance, store, writes_of, AreBytes,
  add_cycle-quiet, ready, selected, header_write,
}

update-update : (c : Bytes) (a x y : ℕ) → update (update c a x) a y ≡ update c a y
update-update c a x y = fun_ext λ i. ground arith

-- What the two cycles of a byte write: the value, and the data.
abbrev Written : Type 0
Written = ℕ × Bytes

second_value :
    (b old : ℕ)
    → b < 2 ^ 8
    → bit_or (bit_or (b / 16 % 16 * 2 ^ 4) (old % 16) / 16 % 16 * 2 ^ 4) (b % 16 % 16) ≡ b
second_value b old h =
    let high = bit_or_fields 4 (b / 16 % 16) (old % 16) (omega arith) in
    bit_or_fields 4 (bit_or (b / 16 % 16 * 2 ^ 4) (old % 16) / 16 % 16) (b % 16 % 16) (omega arith)
    ∙ omega (arith, high)

written :
    (a b : ℕ) (c : Bytes) (old : ℕ)
    → b < 2 ^ 8
    → ◌≡◌ {A = Written}
        (
          bit_or (bit_or (b / 16 % 16 * 2 ^ 4) (old % 16) / 16 % 16 * 2 ^ 4) (b % 16 % 16),
          update
              (update c a (bit_or (b / 16 % 16 * 2 ^ 4) (old % 16)))
              a
              (bit_or (bit_or (b / 16 % 16 * 2 ^ 4) (old % 16) / 16 % 16 * 2 ^ 4) (b % 16 % 16)),
        )
        (b, update c a b)
written a b c old h =
    rw (second_value b old h)
      (ap (λ (d : Bytes). (b, d)) (update-update c a (bit_or (b / 16 % 16 * 2 ^ 4) (old % 16)) b))

pub update_self : (c : Bytes) (a v : ℕ) → update c a v a ≡ some v
update_self c a v = ground arith

transfer-step :
    (sio : ℕ) (rest : List ℕ) (m : Memory) (c : Cycle)
    → cycle false sio m ≡ ok c
    → transfer (sio ∷ rest) m ≡ add_cycle c (transfer rest c.after)
transfer-step sio rest m c h = rw (h, transfer) refl

first_cycle :
    (a sio : ℕ) (c : Bytes)
    → cycle false sio (ready write_mode a write0 c)
      ≡ ok (record {
        wrote = none;
        nibble = none;
        after =
            ready write_mode a write1 (update c a (bit_or (sio % 16 * 2 ^ 4) (or_zero (c a) % 16)));
      })
unfolding cycle
first_cycle a sio c = refl

second_cycle :
    (a sio old : ℕ) (c : Bytes)
    → c a ≡ some old
    → cycle false sio (ready write_mode a write1 c)
      ≡ ok (record {
        wrote = some (a, bit_or (old / 16 % 16 * 2 ^ 4) (sio % 16));
        nibble = none;
        after =
            ready write_mode
              (next a)
              write0
              (update c a (bit_or (old / 16 % 16 * 2 ^ 4) (sio % 16)));
      })
unfolding cycle
second_cycle a sio old c h = rw h refl

-- The two cycles of a byte that is written.
write_byte :
    (a b : ℕ) (rest : List ℕ) (c : Bytes)
    → b < 2 ^ 8
    → transfer ((b / 16) ∷ (b % 16) ∷ rest) (ready write_mode a write0 c)
      ≡ add_cycle
          (record {
            wrote = some (a, b);
            nibble = none;
            after = ready write_mode (next a) write0 (update c a b);
          })
          (transfer rest (ready write_mode (next a) write0 (update c a b)))
write_byte a b rest c h =
    let first : ℕ = bit_or (b / 16 % 16 * 2 ^ 4) (or_zero (c a) % 16) in
    let middle : Memory = ready write_mode a write1 (update c a first) in
    transfer-step (b / 16) ((b % 16) ∷ rest) (ready write_mode a write0 c) _
      (first_cycle a (b / 16) c)
    ∙ (add_cycle-quiet middle (transfer ((b % 16) ∷ rest) middle)
        ∙ (transfer-step (b % 16) rest middle _
              (second_cycle a (b % 16) first (update c a first) (update_self c a first))
            ∙ (ap
                (λ (x : Written).
                  add_cycle
                    (record {
                      wrote = some (a, x.0);
                      nibble = none;
                      after = ready write_mode (next a) write0 x.1;
                    })
                    (transfer rest (ready write_mode (next a) write0 x.1)))
                (written a b c (or_zero (c a)) h))))

-- The data phase of a write stores the bytes in their order.
write_data :
    (a : ℕ) (bs : List ℕ) (c : Bytes)
    → AreBytes bs
    → transfer (nibbles_of bs) (ready write_mode a write0 c)
      ≡ ok (record {
        writes = writes_of a bs;
        nibbles = [];
        after = ready write_mode (advance a bs) write0 (store a bs c);
      })
write_data a [] c h = refl
write_data a (b ∷ bs) c h =
    write_byte a b (nibbles_of bs) c h.0 ∙ rw (write_data (next a) bs (update c a b) h.1) refl

-- A write transfer from a deselected memory stores the bytes at the address and behind it, in
-- their order, reports each of them, and drives nothing.
pub write_transfer :
    (a : ℕ) (bs : List ℕ) (c : Bytes)
    → a < 2 ^ 16
    → AreBytes bs
    → transfer (header write_mode a (nibbles_of bs)) (selected c)
      ≡ ok (record {
        writes = writes_of a bs;
        nibbles = [];
        after = ready write_mode (advance a bs) write0 (store a bs c);
      })
write_transfer a bs c h b = header_write a (nibbles_of bs) c h ∙ write_data a bs c b
