-- ===== src/Board/Flash.antt =====
-- The flash command of scripts/podi.py, and how the board reads it.
use idli_v.Prelude.{ℕ, ◌+◌, ◌*◌, List, ◌∷◌, take, drop, Option, none, some}

-- What the board takes a command of this kind for: the number of words, then the bytes of the low
-- memory and those of the high one, as many of each.
abbrev pub board_data : List ℕ → Option (List ℕ × List ℕ)
board_data (kind ∷ n_low ∷ n_high ∷ bytes) =
    let n = n_low + 256 * n_high in some (take n bytes, take n (drop n bytes))
board_data _ = none
