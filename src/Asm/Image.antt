-- ===== src/Asm/Image.antt =====
-- `encode` of scripts/asm.py: the binary that is written, and the whole run of the assembler.
pub mod Write
pub mod Chunks
pub mod Size
pub mod Layout
pub mod Fetch
use idli_v.Prelude.{
  ℕ, zero, suc, ◌+◌, ◌-◌, ◌*◌, Bool, true, false, List, [], ◌∷◌, Option, none, some, max, min, map,
  Text, Dict, find, values, set, replicate, length, Result, ok, err, abort, key_error, index_error,
  value_error, of_option, ◌>>=◌, ltb, leb, if◌then◌else◌,
}
use idli_v.Isa.Instr.{Item, item_encode}
use idli_v.Asm.{Source, Asm}
use idli_v.Asm.File.{parse}
use idli_v.Asm.Labels.{resolve_labels}

abbrev max_from : ℕ → List ℕ → ℕ
max_from m [] = m
max_from m (x ∷ xs) = max_from (max m x) xs

-- `max(addrs.values())`
abbrev pub max_of : List ℕ → Result ℕ
max_of [] = err value_error
max_of (x ∷ xs) = ok (max_from x xs)

abbrev pub max_size : ℕ
max_size = 64 * 1024

-- The words of the binary: two for an immediate, and two more if there is room for them; the
-- room is negative if there is none.
unfoldable pub mem_size : ℕ → ℕ
mem_size top = if leb (top + 2) max_size then top + 2 + min (max_size - (top + 2)) 2 else max_size

-- `for x in enc: mem[addr] = x; addr += 1`
pub write_bytes : List ℕ → ℕ → List ℕ → Result (List ℕ)
write_bytes [] addr mem = ok mem
write_bytes (x ∷ xs) addr mem =
    if ltb addr (length mem) then write_bytes xs (addr + 1) (set mem addr x) else err index_error

abbrev or_abort : Result (List ℕ) → Result (List ℕ)
or_abort (ok bytes) = ok bytes
or_abort (err e) = err abort

-- The loop over the items, which encodes each with those behind it as followers.
pub write_items : Dict ℕ → Dict Item → List ℕ → Result (List ℕ)
write_items addrs [] mem = ok mem
write_items addrs ((prefix, item) ∷ rest) mem = or_abort (item_encode item (values rest)) >>= λ enc.
    of_option key_error (find prefix addrs) >>= λ addr.
    write_bytes enc (addr * 2) mem >>= λ mem'. write_items addrs rest mem'

-- `encode`
unfoldable pub encode : Asm → Result (List ℕ)
unfolding write_items
encode s = max_of (values s.addrs) >>= λ top.
    (if leb max_size (mem_size top)
      then err abort
      else write_items s.addrs s.items (replicate (mem_size top * 2) 0))

-- The main program.
unfoldable pub assemble : ℕ → Source → Text → Result (List ℕ)
assemble depth src path = parse depth src path >>= λ s. resolve_labels s >>= λ s'. encode s'
