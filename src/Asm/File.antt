-- ===== src/Asm/File.antt =====
-- `parse` of scripts/asm.py: a file, with those that it includes.
use mathlib.Core.List.{reverse}
use idli_v.Prelude.{
  ℕ, zero, suc, ◌+◌, Bool, ◌&&◌, ◌||◌, List, [], ◌∷◌, ◌++◌, Text, Result, ok, err, abort, exception,
  of_option, ◌>>=◌, leb, ◌==◌, if◌then◌else◌,
}
use idli_v.Asm.{Source, Asm, start}
use idli_v.Isa.Print.{decimal_text}
use idli_v.Asm.Parse.{parse_line}

-- `c.isspace()`
abbrev is_space : ℕ → Bool
is_space c =
    leb 9 c && leb c 13
    || leb 28 c && leb c 32
    || c == 0x85
    || c == 0xa0
    || c == 0x1680
    || leb 0x2000 c && leb c 0x200a
    || c == 0x2028
    || c == 0x2029
    || c == 0x202f
    || c == 0x205f
    || c == 0x3000

abbrev strip_left : Text → Text
strip_left [] = []
strip_left (c ∷ cs) = if is_space c then strip_left cs else c ∷ cs

-- `line.strip()`
unfoldable pub strip : Text → Text
strip line = reverse (strip_left (reverse (strip_left line)))

-- The lines from number `i` on.
abbrev skip_empty : Text → Result (ℕ × Asm) → ℕ → Asm → Result (ℕ × Asm)
skip_empty [] parsed need s = ok (need, s)
skip_empty (c ∷ cs) parsed need s = parsed

pub parse_lines :
    (Text → Text → Asm → Result Asm) → Source → Text → Text → ℕ → List Text → ℕ → Asm → Result Asm
parse_lines parse src path prefix i [] need s = ok s
parse_lines parse src path prefix i (line ∷ lines) need s =
    let name = prefix ++ path ++ b':' ∷ decimal_text (i + 1) in
    let parsed = parse_line parse src (src.parent path) (strip line) name need s in
    elim (skip_empty (strip line) parsed need s) [
      | err e ↦ err e
      | ok (need', s') ↦ parse_lines parse src path prefix (i + 1) lines need' s'
    ]

-- `parse`, on fuel for the depth of the includes: behind it Python raises too.
pub parse_file : ℕ → Source → Text → Text → Asm → Result Asm
unfolding parse_lines
parse_file zero src path prefix s = err exception
parse_file (suc depth) src path prefix s = of_option abort (src.read path) >>= λ lines.
    parse_lines (parse_file depth src) src path prefix 0 lines 0 s

-- The first pass over the file that is assembled.
unfoldable pub parse : ℕ → Source → Text → Result Asm
unfolding parse_file
parse depth src path = parse_file depth src path [] start
