-- ===== src/Asm/Numbers.antt =====
-- The numbers and characters of scripts/asm.py. `int(value, 0)` is written out for the texts of the
-- grammar, which have no underscores and no blanks.
pub mod Range
use idli_v.Prelude.{
  ℕ, zero, suc, ◌+◌, ◌-◌, ◌*◌, Bool, true, false, ◌&&◌, ◌||◌, List, [], ◌∷◌, Option, none, some, ℤ,
  pos, negsuc, ◌+ℤ◌, ltb_ℤ, Text, Result, ok, err, value_error, index_error, type_error, abort, ltb,
  leb, ◌==◌, if◌then◌else◌, of_option, ◌>>=◌, all, map,
}

abbrev between : ℕ → ℕ → ℕ → Bool
between lo hi c = leb lo c && leb c hi

-- The value of a digit; what is none is above every base.
abbrev digit_value : ℕ → ℕ
digit_value c =
    if between b'0' b'9' c
    then c - b'0'
    else if between b'a' b'f' c
    then c - b'a' + 10
    else if between b'A' b'F' c
    then c - b'A' + 10
    else 99

abbrev digits_from : ℕ → ℕ → Text → Option ℕ
digits_from base acc [] = some acc
digits_from base acc (c ∷ cs) =
    let rest = digits_from base (acc * base + digit_value c) cs in
    if ltb (digit_value c) base then rest else none

-- Digits, one at least.
abbrev pub number_in : ℕ → Text → Option ℕ
number_in base [] = none
number_in base (c ∷ cs) = digits_from base 0 (c ∷ cs)

-- Decimal digits with zeros in front only if all are zero.
abbrev decimal : Text → Option ℕ
decimal [] = none
decimal (c ∷ []) = number_in 10 (c ∷ [])
decimal (c ∷ d ∷ cs) =
    if c == b'0'
    then (if all (λ x. x == b'0') (d ∷ cs) then some 0 else none)
    else number_in 10 (c ∷ d ∷ cs)

abbrev is_one_of : ℕ → ℕ → ℕ → Bool
is_one_of a b c = c == a || c == b

abbrev unsigned : Text → Option ℕ
unsigned (z ∷ x ∷ cs) =
    if z == b'0' && is_one_of b'x' b'X' x
    then number_in 16 cs
    else if z == b'0' && is_one_of b'b' b'B' x
    then number_in 2 cs
    else if z == b'0' && is_one_of b'o' b'O' x
    then number_in 8 cs
    else decimal (z ∷ x ∷ cs)
unsigned cs = decimal cs

abbrev negate : ℕ → ℤ
negate zero = pos 0
negate (suc n) = negsuc n

-- `int(text, 0)`
unfoldable pub int_text : Text → Result ℤ
int_text [] = err value_error
int_text (c ∷ cs) =
    if c == b'-'
    then of_option value_error (unsigned cs) >>= (λ n. ok (negate n))
    else if c == b'+'
    then of_option value_error (unsigned cs) >>= (λ n. ok (pos n))
    else of_option value_error (unsigned (c ∷ cs)) >>= (λ n. ok (pos n))

-- `int(text)` of unsigned digits
unfoldable pub int_digits : Text → Result ℕ
int_digits cs = of_option value_error (number_in 10 cs)

-- `parse_imm`, from the integer on.
unfoldable pub signed_imm : ℤ → Result ℤ
signed_imm imm =
    if ltb_ℤ imm (negsuc 32767) || ltb_ℤ (pos 65535) imm
    then err abort
    else if ltb_ℤ (pos 32767) imm
    then ok (imm +ℤ negsuc 65535)
    else ok imm

unfoldable pub parse_imm : Text → Result ℤ
parse_imm text = int_text text >>= signed_imm

abbrev escape : Text → Result ℕ
escape [] = err index_error
escape (c ∷ cs) =
    if c == b'0'
    then ok 0
    else if c == b't'
    then ok 9
    else if c == b'n'
    then ok 10
    else if is_one_of b'"' b'\'' c
    then ok c
    else err abort

-- `parse_char`; `ord` wants one character.
unfoldable pub parse_char : Text → Result ℕ
parse_char [] = err index_error
parse_char (c ∷ cs) =
    if c == b'\\' then escape cs else elim cs [ [] ↦ ok c | d ∷ ds ↦ err type_error ]
