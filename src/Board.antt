-- ===== src/Board.antt =====
-- The host's side of the board: scripts/podi.py. The serial port is a parameter, with what has
-- arrived at each read as text.
pub mod Flash
pub mod Pico
use idli_v.Prelude.{
  ℕ, zero, suc, ◌/◌, ◌%◌, ◌^◌, Bool, true, false, ◌&&◌, ◌||◌, List, [], ◌∷◌, ◌++◌, Text, length,
  ltb, ◌==◌, Result, ok, err, exception, struct_error, if◌then◌else◌, ◌>>=◌,
}
use idli_v.Isa.Mnem.{codes}
use idli_v.Split.{split}

-- `serial.Serial`: `write` with `flush`, and a read of what is there, decoded.
pub record Serial (S : Type 0) : Type 0 where
  pub write : List ℕ → S → S
  pub read : S → Result (Text × S)

-- `CMD_PING`, `CMD_FLASH` and `CMD_RUN`
abbrev pub cmd_ping : List ℕ
cmd_ping = 0 ∷ []

abbrev pub cmd_flash : List ℕ
cmd_flash = 1 ∷ []

abbrev pub cmd_run : List ℕ
cmd_run = 2 ∷ []

abbrev pub starts : Text → Text → Bool
starts [] t = true
starts (x ∷ xs) [] = false
starts (x ∷ xs) (y ∷ ys) = y == x && starts xs ys

-- `part in t`
abbrev pub contains_text : Text → Text → Bool
contains_text part [] = starts part []
contains_text part (y ∷ ys) = starts part (y ∷ ys) || contains_text part ys

abbrev pub done : Text
done = codes "=== DONE ==="

-- `struct.pack('<H', n)`
abbrev pub pack_length : ℕ → Result (List ℕ)
pack_length n = if ltb n (2 ^ 16) then ok (n % 256 ∷ n / 256 ∷ []) else err struct_error

-- The command that `flash` sends, for the bytes of the file.
unfoldable pub flash_command : List ℕ → Result (List ℕ)
unfolding split
flash_command binary = split binary >>= λ data_lo_hi. pack_length (length (data_lo_hi.0)) >>= λ n.
    ok (cmd_flash ++ (n ++ ((data_lo_hi.0) ++ (data_lo_hi.1))))

module _ {S : Type 0} (serial : Serial S) where
  -- The loop of `_run`, on fuel for the number of reads; the printing of what arrives is left out.
  unfoldable pub wait_done : ℕ → Text → S → Result (Text × S)
  wait_done zero output s = err exception
  wait_done (suc fuel) output s = elim (serial.read s) [
    | err e ↦ err e
    | ok (tmp, s') ↦
        let rest = wait_done fuel (output ++ tmp) s' in
        if contains_text done (output ++ tmp) then ok (output ++ tmp, s') else rest
  ]

  -- `_run`
  unfoldable pub run_command : ℕ → List ℕ → S → Result (Text × S)
  unfolding wait_done
  run_command fuel cmd s = wait_done fuel [] (serial.write cmd s)

  abbrev pub ping : ℕ → S → Result (Text × S)
  ping fuel s = run_command fuel cmd_ping s

  unfoldable pub flash : ℕ → List ℕ → S → Result (Text × S)
  unfolding flash_command run_command
  flash fuel binary s = flash_command binary >>= λ cmd. run_command fuel cmd s

  abbrev pub run_program : ℕ → S → Result (Text × S)
  run_program fuel s = run_command fuel cmd_run s

  -- The main program: `ping`, `flash` and `run`.
  unfoldable pub session : ℕ → List ℕ → S → Result S
  unfolding flash
  session fuel binary s = do
    p ← ping fuel s
    f ← flash fuel binary (p.1)
    r ← run_program fuel (f.1)
    ok (r.1)
