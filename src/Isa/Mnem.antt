-- ===== src/Isa/Mnem.antt =====
-- The mnemonics of scripts/isa.py: the keys of `ENCODINGS` as a data type, their spelling, and the
-- encoding of each. A `+` or `-` of a mnemonic is `inc` or `dec` in its constructor, and `in` is
-- `in_pin`.
use Prim.Native.Char.{code}
use idli_v.Prelude.{ℕ, String, List, [], ◌∷◌, Bool, false, ◌||◌, ◌==◌}

pub data Mnem : Type 0 where
  add sub and andn or xor ld st ldm stm ld_inc st_inc inc_ld inc_st ld_dec st_dec dec_ld dec_st :
      Mnem
  inc dec srl sra ror rol not eq ne lt ltu ge geu any inp eqx nex ltx ltux gex geux anyx inpx : Mnem
  addpc b j bl jl in_pin out outn outp urx utx getp putp cex carry andp orp : Mnem

-- The code points of a text, which is ASCII here.
abbrev pub codes : String → List ℕ
codes String.[] = []
codes (String.◌∷◌ c s) = code c ∷ codes s

unfoldable pub name : Mnem → String
name add = "add"
name sub = "sub"
name and = "and"
name andn = "andn"
name or = "or"
name xor = "xor"
name ld = "ld"
name st = "st"
name ldm = "ldm"
name stm = "stm"
name ld_inc = "ld+"
name st_inc = "st+"
name inc_ld = "+ld"
name inc_st = "+st"
name ld_dec = "ld-"
name st_dec = "st-"
name dec_ld = "-ld"
name dec_st = "-st"
name inc = "inc"
name dec = "dec"
name srl = "srl"
name sra = "sra"
name ror = "ror"
name rol = "rol"
name not = "not"
name eq = "eq"
name ne = "ne"
name lt = "lt"
name ltu = "ltu"
name ge = "ge"
name geu = "geu"
name any = "any"
name inp = "inp"
name eqx = "eqx"
name nex = "nex"
name ltx = "ltx"
name ltux = "ltux"
name gex = "gex"
name geux = "geux"
name anyx = "anyx"
name inpx = "inpx"
name addpc = "addpc"
name b = "b"
name j = "j"
name bl = "bl"
name jl = "jl"
name in_pin = "in"
name out = "out"
name outn = "outn"
name outp = "outp"
name urx = "urx"
name utx = "utx"
name getp = "getp"
name putp = "putp"
name cex = "cex"
name carry = "carry"
name andp = "andp"
name orp = "orp"

-- The right-hand sides of `ENCODINGS`, as they are written.
unfoldable pub encoding : Mnem → String
encoding add = "0000_aaaa_bbbb_cccc"
encoding sub = "0001_aaaa_bbbb_cccc"
encoding and = "0010_aaaa_bbbb_cccc"
encoding andn = "0011_aaaa_bbbb_cccc"
encoding or = "0100_aaaa_bbbb_cccc"
encoding xor = "0101_aaaa_bbbb_cccc"
encoding ld = "0110_aaaa_bbbb_cccc"
encoding st = "0111_aaaa_bbbb_cccc"
encoding ldm = "1000_rrrr_ssss_bbbb"
encoding stm = "1001_rrrr_ssss_bbbb"
encoding ld_inc = "1010_aaaa_bbbb_0000"
encoding st_inc = "1010_aaaa_bbbb_0001"
encoding inc_ld = "1010_aaaa_bbbb_0010"
encoding inc_st = "1010_aaaa_bbbb_0011"
encoding ld_dec = "1010_aaaa_bbbb_0100"
encoding st_dec = "1010_aaaa_bbbb_0101"
encoding dec_ld = "1010_aaaa_bbbb_0110"
encoding dec_st = "1010_aaaa_bbbb_0111"
encoding inc = "1010_aaaa_bbbb_1000"
encoding dec = "1010_aaaa_bbbb_1001"
encoding srl = "1010_aaaa_bbbb_1010"
encoding sra = "1010_aaaa_bbbb_1011"
encoding ror = "1010_aaaa_bbbb_1100"
encoding rol = "1010_aaaa_bbbb_1101"
encoding not = "1010_aaaa_bbbb_1110"
encoding eq = "1011_0000_bbbb_cccc"
encoding ne = "1011_0001_bbbb_cccc"
encoding lt = "1011_0010_bbbb_cccc"
encoding ltu = "1011_0011_bbbb_cccc"
encoding ge = "1011_0100_bbbb_cccc"
encoding geu = "1011_0101_bbbb_cccc"
encoding any = "1011_0110_bbbb_cccc"
encoding inp = "1011_0111_??nn_0000"
encoding eqx = "1011_1000_bbbb_cccc"
encoding nex = "1011_1001_bbbb_cccc"
encoding ltx = "1011_1010_bbbb_cccc"
encoding ltux = "1011_1011_bbbb_cccc"
encoding gex = "1011_1100_bbbb_cccc"
encoding geux = "1011_1101_bbbb_cccc"
encoding anyx = "1011_1110_bbbb_cccc"
encoding inpx = "1011_1111_??nn_0000"
encoding addpc = "1100_aaaa_???0_cccc"
encoding b = "1100_??00_???1_cccc"
encoding j = "1100_??01_???1_cccc"
encoding bl = "1100_??10_???1_cccc"
encoding jl = "1100_??11_???1_cccc"
encoding in_pin = "1101_???0_00nn_aaaa"
encoding out = "1101_???0_01nn_cccc"
encoding outn = "1101_???0_10nn_cccc"
encoding outp = "1101_???0_11nn_0000"
encoding urx = "1101_???1_??00_aaaa"
encoding utx = "1101_???1_??01_cccc"
encoding getp = "1101_???1_??10_aaaa"
encoding putp = "1101_???1_??11_cccc"
encoding cex = "1110_???0_mmmm_mmmm"
encoding carry = "1110_???1_??00_jjjj"
encoding andp = "1110_???1_??01_jjjj"
encoding orp = "1110_???1_??10_jjjj"

-- The keys of `ENCODINGS`, in the order of the dictionary.
abbrev pub mnems : List Mnem
mnems =
    add ∷ sub ∷ and ∷ andn ∷ or ∷ xor ∷ ld ∷ st ∷ ldm ∷ stm ∷ ld_inc ∷ st_inc ∷ inc_ld ∷ inc_st
    ∷ ld_dec ∷ st_dec ∷ dec_ld ∷ dec_st ∷ inc ∷ dec ∷ srl ∷ sra ∷ ror ∷ rol ∷ not ∷ eq ∷ ne ∷ lt
    ∷ ltu ∷ ge ∷ geu ∷ any ∷ inp ∷ eqx ∷ nex ∷ ltx ∷ ltux ∷ gex ∷ geux ∷ anyx ∷ inpx ∷ addpc ∷ b ∷ j
    ∷ bl ∷ jl ∷ in_pin ∷ out ∷ outn ∷ outp ∷ urx ∷ utx ∷ getp ∷ putp ∷ cex ∷ carry ∷ andp ∷ orp ∷ []

-- The tests of the simulator on the spelling of a mnemonic.
abbrev head_is : ℕ → List ℕ → Bool
head_is x [] = false
head_is x (y ∷ ys) = y == x

abbrev last_is : ℕ → List ℕ → Bool
last_is x [] = false
last_is x (y ∷ []) = y == x
last_is x (y ∷ z ∷ zs) = last_is x (z ∷ zs)

abbrev pub contains : ℕ → List ℕ → Bool
contains x [] = false
contains x (y ∷ ys) = y == x || contains x ys

-- `x in mnem`, `mnem[0] == x` and `mnem[-1] == x`
unfoldable pub has_char : ℕ → Mnem → Bool
unfolding name
has_char x k = contains x (codes (name k))

unfoldable pub starts_with : ℕ → Mnem → Bool
unfolding name
starts_with x k = head_is x (codes (name k))

unfoldable pub ends_with : ℕ → Mnem → Bool
unfolding name
ends_with x k = last_is x (codes (name k))
