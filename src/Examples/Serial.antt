-- ===== src/Examples/Serial.antt =====
-- Transfers of the memory and words on the serial line at concrete inputs.
use idli_v.Prelude.{ℕ, ◌≡◌, ◌++◌, refl, arith, List, [], ◌∷◌, none, ok, true, false, replicate}
use idli_v.Sqi.{Memory, Bytes, write0, write_mode, read_mode}
use idli_v.Sqi.Transfer.{transfer, header, nibbles_of, store, writes_of, advance, selected, ready}
use idli_v.Sqi.Transfer.Write.{write_transfer}
use idli_v.Sqi.Transfer.Read.{read_transfer, write_then_read, read-write_transfer}
use idli_v.Uart.Line.{line_run, schedule, Frame, at_rest, line_words}

abbrev nothing : Bytes
nothing a = none

abbrev two_bytes : List ℕ
two_bytes = 0x12 ∷ 0x34 ∷ []

abbrev clocks : List ℕ
clocks = 0 ∷ 0 ∷ 0 ∷ 0 ∷ []

-- Two bytes at the end of the memory, where the address wraps.
write_transfer_example :
    transfer (header write_mode 0xffff (nibbles_of two_bytes)) (selected nothing)
    ≡ ok (record {
      writes = writes_of 0xffff two_bytes;
      nibbles = [];
      after = ready write_mode (advance 0xffff two_bytes) write0 (store 0xffff two_bytes nothing);
    })
write_transfer_example =
    write_transfer 0xffff two_bytes nothing (omega arith) (omega arith, (omega arith, tt))

read_transfer_example :
    (m : Memory) × (transfer
        (header read_mode 0x100 (0 ∷ clocks))
        (selected (store 0x100 two_bytes nothing))
      ≡ ok (record { writes = []; nibbles = nibbles_of two_bytes; after = m }))
    × (m.content ≡ store 0x100 two_bytes nothing)
read_transfer_example =
    read_transfer 0x100 two_bytes clocks (store 0x100 two_bytes nothing) 0 (omega arith)
      (omega arith) (omega arith, (omega arith, tt)) (refl, (refl, tt))

read-write_transfer_example :
    (m : Memory) × (write_then_read 0xffff two_bytes (0 ∷ clocks) nothing
      ≡ ok (record { writes = []; nibbles = nibbles_of two_bytes; after = m }))
    × (m.content ≡ store 0xffff two_bytes nothing)
read-write_transfer_example =
    read-write_transfer 0xffff two_bytes (0 ∷ clocks) nothing (omega arith) (omega arith)
      (omega arith) (omega arith, (omega arith, tt))

abbrev two_frames : List Frame
two_frames = (0, replicate 18 false) ∷ (3, replicate 18 true) ∷ []

line_words_example :
    (bits : ℕ) × (line_run (schedule two_frames) (at_rest [] ((0x1234 ∷ 0xffff ∷ []) ++ []) 0)
      ≡ ok (at_rest ([] ++ 0x1234 ∷ 0xffff ∷ []) [] bits))
line_words_example =
    line_words two_frames (0x1234 ∷ 0xffff ∷ []) [] [] 0
      (refl, omega arith, (refl, omega arith, tt))
