-- ===== src/Asm/Image/Layout.antt =====
-- The layout of the binary of scripts/asm.py: each item at its own address.
use idli_v.Prelude.{
  ℕ, ◌+◌, ◌*◌, ◌^◌, ◌<◌, ◌≡◌, refl, sym, ap, ◌∙◌, arith, List, [], ◌∷◌, Dict, values, length,
  replicate, ok, ◌>>=◌,
}
use idli_v.Isa.Instr.{Item}
use idli_v.Asm.{Asm}
use idli_v.Asm.Image
use idli_v.Asm.Image.{write_items, write_bytes, mem_size, max_size, max_of, max_from}
use idli_v.Asm.Image.Write.{Holds, write_bytes-Wrote}
use idli_v.Asm.Image.Chunks.{Chunks, Encodes, ApartFrom, AreApart, FitIn, AllHeld}
use idli_v.Asm.Image.Size.{Encodes-FitIn, FitIn-le, length-replicate, mem_size-room}

record Laid (addrs : Dict ℕ) (items : Dict Item) (chunks : Chunks) (mem mem' : List ℕ)
    : Type 0 where
  runs : write_items addrs items mem ≡ ok mem'
  same_length : length mem' ≡ length mem
  held : AllHeld mem' chunks
  keeps : (b : ℕ) (ys : List ℕ) → ApartFrom b ys chunks → Holds mem b ys → Holds mem' b ys

write_items-Laid :
    (addrs : Dict ℕ) (items : Dict Item) (chunks : Chunks) (mem : List ℕ)
    → Encodes addrs items chunks
    → AreApart chunks
    → FitIn (length mem) chunks
    → (mem' : List ℕ) × Laid addrs items chunks mem mem'
unfolding write_items
write_items-Laid addrs [] [] mem e a f =
    (mem, record { runs = refl; same_length = refl; held = tt; keeps = λ b ys apart k. k })
write_items-Laid addrs [] (c ∷ chunks) mem e a f = absurd e
write_items-Laid addrs (i ∷ items) [] mem e a f = absurd e
write_items-Laid addrs ((prefix, item) ∷ items) ((at, bytes) ∷ chunks) mem
      ((addr, known, place), coded, e) a f =
    let (mem1, w) = write_bytes-Wrote bytes at mem f.0 in
    let (mem', l) = write_items-Laid addrs items chunks mem1 e a.1 (rw w.same_length f.1) in
    let wrote : write_bytes bytes (addr * 2) mem ≡ ok mem1 =
      ap (λ (t : ℕ). write_bytes bytes t mem) (sym place) ∙ w.runs in
    (
      mem',
      record {
        runs = rw (coded, known, wrote) l.runs;
        same_length = l.same_length ∙ w.same_length;
        held = (l.keeps at bytes a.0 w.holds, l.held);
        keeps = λ b ys apart k. l.keeps b ys apart.1 (w.keeps b ys apart.0 k);
      },
    )

-- Items that do not overlap, none of them in the last four words of the address space, are all in the
-- binary that `encode` writes: each has its encoding, with the items behind it as followers, at
-- its address; and the binary has `mem_size` words.
pub encode-AllHeld :
    (s : Asm) (chunks : Chunks) (top : ℕ)
    → max_of (values s.addrs) ≡ ok top
    → top + 4 < 2 ^ 16
    → Encodes s.addrs s.items chunks
    → AreApart chunks
    → (image : List ℕ) × (Image.encode s ≡ ok image)
      × (length image ≡ mem_size top * 2)
      × AllHeld image chunks
unfolding Image.encode
encode-AllHeld s chunks top t small e apart =
    let empty = replicate (mem_size top * 2) 0 in
    let size = length-replicate (mem_size top * 2) 0 in
    let (room, in_bounds) = mem_size-room top small in
    let fit =
      FitIn-le ((top + 2) * 2) (length empty) chunks (omega (arith, size, room))
        (Encodes-FitIn s.addrs s.items chunks top t e) in
    let (image, l) = write_items-Laid s.addrs s.items chunks empty e apart fit in
    (image, rw (t, ◌>>=◌) (rw in_bounds l.runs), l.same_length ∙ size, l.held)
