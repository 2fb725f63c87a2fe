-- ===== src/Split/Dump.antt =====
-- `dump` and the main program of scripts/hexdump.py: the texts of the files of the two memories.
use idli_v.Prelude.{ℕ, ◌-◌, List, [], ◌∷◌, ◌++◌, Text, length, replicate, Result, ok, ◌>>=◌}
use idli_v.Isa.Print.{numeral}
use idli_v.Split.{split}

-- `f'{x:02x}'`
abbrev hex2 : ℕ → Text
hex2 x = let ds = numeral 16 x in replicate (2 - length ds) b'0' ++ ds

-- `'\n'.join(..)` of the bytes.
unfoldable pub dump : List ℕ → Text
dump [] = []
dump (x ∷ []) = hex2 x
dump (x ∷ y ∷ items) = hex2 x ++ 10 ∷ dump (y ∷ items)

-- What is written for the low and for the high memory.
unfoldable pub hexdump : List ℕ → Result (Text × Text)
unfolding split dump
hexdump binary = split binary >>= λ x. ok (dump (x.0), dump (x.1))
