-- ===== src/Asm.antt =====
-- scripts/asm.py: the assembler. The trees that the parser makes of a line by scripts/idli.lark,
-- and the state that the functions of asm.py pass on.
pub mod Numbers
pub mod Parse
pub mod File
pub mod Labels
pub mod Image
pub mod Overlap
pub mod Conditions
use idli_v.Prelude.{ℕ, List, Option, Text, Dict, []}
use idli_v.Isa.Mnem.{Mnem}
use idli_v.Isa.Encoding.{Operand}
use idli_v.Isa.Instr.{Cond, Item}
use idli_v.Isa.Synonym.{Synonym}

-- The terminals that an operand is made of.
pub data TokenType : Type 0 where
  register immediate label_ref char_letter number : TokenType

pub record Token : Type 0 where
  pub type : TokenType
  pub value : Text

-- A mnemonic that the grammar knows.
pub data Op : Type 0 where
  real_op : Mnem → Op
  synonym : Synonym → Op

-- A rule `instr_abc`: the letters of its name are the pattern, and `none` is that of `instr_none`.
pub record InstrTree : Type 0 where
  pub op : Op
  pub pattern : Option (List Operand)
  pub cond : Option Cond
  pub tokens : List Token

pub data Directive : Type 0 where
  include space int_value org : Text → Directive

-- A child of the rule `line`.
pub data Tree : Type 0 where
  directive : Directive → Tree
  label : Text → Tree
  instr_tree : InstrTree → Tree

-- The files, with the operations of pathlib on their paths, and the parser, which fails on a line
-- that is not of the grammar.
pub record Source : Type 0 where
  pub read : Text → Option (List Text)
  pub parent : Text → Text
  pub join : Text → Text → Text
  pub parser : Text → Option (List Tree)

-- `labels`, `items`, `addrs`, and `addr`.
pub record Asm : Type 0 where
  pub labels : Dict (List ℕ)
  pub items : Dict Item
  pub addrs : Dict ℕ
  pub addr : ℕ

abbrev pub start : Asm
start = record { labels = []; items = []; addrs = []; addr = 0 }
