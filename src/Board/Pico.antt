-- ===== src/Board/Pico.antt =====
-- `Pico` of scripts/pico.py: the commands that the host sends to the microcontroller at the board's
-- memories, as texts for its interpreter.
use idli_v.Prelude.{
  ℕ, zero, suc, ◌+◌, ◌-◌, ◌*◌, ◌/◌, ◌%◌, Bool, not, ◌&&◌, ◌||◌, List, [], ◌∷◌, ◌++◌, Text, Option,
  none, some, length, list_eq, ltb, leb, ◌==◌, Result, ok, err, exception, assertion, value_error,
  if◌then◌else◌, ◌>>=◌,
}
use idli_v.Isa.Mnem.{codes, contains}
use idli_v.Isa.Instr.{pack_u16}
use idli_v.Isa.Print.{decimal_text, digit}
use idli_v.Split.{split}
use idli_v.Board.{Serial, starts}

abbrev cs_lo : ℕ
cs_lo = 0

abbrev cs_hi : ℕ
cs_hi = 1

abbrev cmd_read : ℕ
cmd_read = 3

abbrev cmd_write : ℕ
cmd_write = 2

abbrev cmd_eqio : ℕ
cmd_eqio = 0x38

abbrev end_line : Text
end_line = codes "#@@DONE@@"

-- `output[:output.index(part)]`, where the text has the part.
abbrev pub before : Text → Text → Option Text
before part [] = if starts part [] then some [] else none
before part (y ∷ ys) = elim (before part ys) [
  | none ↦ if starts part (y ∷ ys) then some [] else none
  | some t ↦ if starts part (y ∷ ys) then some [] else some (y ∷ t)
]

-- `[0-9a-f]`, and the value of a digit.
abbrev is_hex : ℕ → Bool
is_hex x = (leb b'0' x && leb x b'9') || (leb b'a' x && leb x b'f')

abbrev hex_value : ℕ → ℕ
hex_value x = if leb x b'9' then x - b'0' else x - b'a' + 10

abbrev hex_prefix : Text → Text
hex_prefix [] = []
hex_prefix (x ∷ xs) = if is_hex x then x ∷ hex_prefix xs else []

abbrev skip : Text → Text → Text
skip [] t = t
skip (x ∷ part) [] = []
skip (x ∷ part) (y ∷ t) = skip part t

abbrev data_mark : Text
data_mark = codes "DATA: "

-- The group of `re.search(r'DATA: (?P<data>[0-9a-f]+)', t)`.
abbrev pub search_data : Text → Option Text
search_data [] = none
search_data (y ∷ ys) =
    let rest = search_data ys in
    if starts data_mark (y ∷ ys)
    then elim (hex_prefix (skip data_mark (y ∷ ys))) [ [] ↦ rest | d ∷ ds ↦ some (d ∷ ds) ]
    else rest

-- `bytes.fromhex`, of hex digits.
abbrev pub from_hex : Text → Result (List ℕ)
from_hex [] = ok []
from_hex (x ∷ []) = err value_error
from_hex (x ∷ y ∷ rest) = from_hex rest >>= λ bytes. ok ((hex_value x * 16 + hex_value y) ∷ bytes)

-- A byte in the text of a bytes object between quotes `q`.
abbrev byte_text : ℕ → ℕ → Text
byte_text q x =
    if x == q || x == 92
    then 92 ∷ x ∷ []
    else if x == 9
    then codes "\\t"
    else if x == 10
    then codes "\\n"
    else if x == 13
    then codes "\\r"
    else if ltb x 32 || leb 127 x
    then 92 ∷ b'x' ∷ digit (x / 16) ∷ digit (x % 16) ∷ []
    else x ∷ []

abbrev byte_texts : ℕ → List ℕ → Text
byte_texts q [] = []
byte_texts q (x ∷ xs) = byte_text q x ++ byte_texts q xs

-- The quote that Python takes: 39, or 34 where only 39 is among the bytes.
abbrev quote : List ℕ → ℕ
quote bytes = if contains 39 bytes && not (contains 34 bytes) then 34 else 39

-- `f'{data}'` of a bytes object.
unfoldable pub bytes_text : List ℕ → Text
bytes_text bytes = let q = quote bytes in (b'b' ∷ q ∷ []) ++ (byte_texts q bytes ++ q ∷ [])

-- `f'cs[{cs}]({level})'` and `f'spi.write({data})'`
abbrev set_cs : ℕ → ℕ → Text
set_cs cs level =
    codes "cs[" ++ (decimal_text cs ++ (codes "](" ++ (decimal_text level ++ codes ")")))

abbrev spi_write : List ℕ → Text
spi_write bytes = codes "spi.write(" ++ (bytes_text bytes ++ codes ")")

-- `struct.pack('>BH', cmd, addr)`, of a command below 256.
abbrev pack_command : ℕ → ℕ → Result (List ℕ)
pack_command cmd addr = pack_u16 addr >>= λ bytes. ok (cmd ∷ bytes)

abbrev init_cmds : List Text
init_cmds =
    codes "from machine import Pin, SPI"
    ∷ codes "cs_lo = Pin(0, Pin.OUT, value=0)"
    ∷ codes "cs_hi = Pin(1, Pin.OUT, value=0)"
    ∷ codes "cs = [cs_lo, cs_hi]"
    ∷ codes "sck = Pin(2, Pin.OUT, value=0)"
    ∷ codes "tx = Pin(3, Pin.OUT, value=0)"
    ∷ codes "rx = Pin(4, Pin.IN)"
    ∷ codes "pwr = Pin(6, Pin.OUT, value=0)"
    ∷ codes "nc = Pin(7, Pin.OUT, value=0)"
    ∷ codes "hold = Pin(8, Pin.OUT, value=0)"
    ∷ codes "spi = SPI(0, sck=sck, mosi=tx, miso=rx)"
    ∷ codes "hold(1)"
    ∷ codes "cs_lo(1)"
    ∷ codes "cs_hi(1)"
    ∷ codes "pwr(1)"
    ∷ []

abbrev float_pin : ℕ → Text
float_pin pin = codes "Pin(" ++ (decimal_text pin ++ codes ", Pin.IN)")

module _ {S : Type 0} (serial : Serial S) (fuel : ℕ) where
  -- The loop of `run`, on fuel for the number of reads.
  unfoldable pub wait_end : ℕ → Text → S → Result (Text × S)
  wait_end zero output s = err exception
  wait_end (suc left) output s = elim (serial.read s) [
    | err e ↦ err e
    | ok (tmp, s') ↦
        let rest = wait_end left (output ++ tmp) s' in
        elim (before end_line (output ++ tmp)) [ none ↦ rest | some t ↦ ok (t, s') ]
  ]

  -- `run`
  unfoldable pub run_text : Text → S → Result (Text × S)
  unfolding wait_end
  run_text cmd s =
      wait_end fuel [] (serial.write (cmd ++ ((13 ∷ 10 ∷ []) ++ (end_line ++ 13 ∷ 10 ∷ []))) s)

  -- Commands one after another, without their output.
  unfoldable pub run_all : List Text → S → Result S
  unfolding run_text
  run_all [] s = ok s
  run_all (cmd ∷ cmds) s = run_text cmd s >>= λ x. run_all cmds (x.1)

  unfoldable pub mem_read : ℕ → ℕ → ℕ → S → Result (List ℕ × S)
  unfolding run_all bytes_text
  mem_read cs addr n s = do
    data_sent ← pack_command cmd_read addr
    let read_n : Text = codes "__tmp_mem_read = spi.read(" ++ (decimal_text n ++ codes ")")
    s' ← run_all (set_cs cs 0 ∷ spi_write data_sent ∷ read_n ∷ set_cs cs 1 ∷ []) s
    x ← run_text (codes "print(\"DATA:\", __tmp_mem_read.hex())") s'
    elim (search_data (x.0)) [
      | none ↦ err assertion
      | some digits ↦ from_hex digits >>= λ bytes. ok (bytes, x.1)
    ]

  -- `mem_write`, with its check.
  unfoldable pub mem_write : ℕ → ℕ → List ℕ → S → Result S
  unfolding mem_read
  mem_write cs addr bytes s = do
    head ← pack_command cmd_write addr
    s' ← run_all (set_cs cs 0 ∷ spi_write (head ++ bytes) ∷ set_cs cs 1 ∷ []) s
    x ← mem_read cs addr (length bytes) s'
    if list_eq (x.0) bytes then ok (x.1) else err exception

  abbrev pub sqi : S → Result S
  sqi s =
      run_all
        (set_cs cs_lo 0
          ∷ spi_write (cmd_eqio ∷ [])
          ∷ set_cs cs_lo 1
          ∷ set_cs cs_hi 0
          ∷ spi_write (cmd_eqio ∷ [])
          ∷ set_cs cs_hi 1
          ∷ [])
        s

  abbrev pub reset : S → Result S
  reset s = run_all init_cmds s

  -- `boot`, for the bytes of the file.
  unfoldable pub boot : List ℕ → S → Result S
  unfolding mem_write split
  boot binary s = do
    x ← split binary
    s1 ← mem_write cs_lo 0 (x.0) s
    s2 ← mem_write cs_hi 0 (x.1) s1
    s3 ← sqi s2
    run_all
        (float_pin 0
          ∷ float_pin 1
          ∷ float_pin 2
          ∷ float_pin 3
          ∷ float_pin 4
          ∷ float_pin 7
          ∷ float_pin 8
          ∷ [])
        s3

  -- The main program: the initial reset, and `boot`.
  unfoldable pub boot_board : List ℕ → S → Result S
  unfolding boot
  boot_board binary s = reset s >>= λ s'. boot binary s'
