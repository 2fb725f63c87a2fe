-- ===== src/Lib.antt =====
-- Verification of the scripts of idli, a 16-bit processor: what is in scripts/*.py, as functions
-- over explicit states.
--
-- The parts, and how they work together. The table `ENCODINGS` of scripts/isa.py says how each
-- mnemonic is laid out in a word. `Instruction.encode` fills the operands in, and for CEX the mask
-- of the conditions of the instructions that follow. `decode` of scripts/objdump.py reads a binary
-- back; `Sim` of scripts/sim.py runs what it gives, an instruction for each call of `tick`, with
-- memory, UART and pins behind callbacks. The assembler scripts/asm.py gathers instructions
-- and data with their addresses in a first pass, puts offsets or addresses in place of labels, and
-- writes the binary with `encode`. The test bench (scripts/tb.py) runs the hardware beside the
-- simulator and compares them after each instruction: it splits a binary between two serial
-- memories (scripts/sqi.py) and drives the serial line (scripts/uart.py). The generator
-- scripts/tgen.py makes tests for it, with the simulator at its side.
--
-- The files:
--   * Prelude and the files below it: shared names, native integers and lists, errors, and the
--     lemmas on bits and fields of words.
--   * Isa/Mnem, Isa/Encoding: `ENCODINGS`, `OPCODES`, `OPCODE_MASKS`, `_check_encodings`.
--     Isa/Instr: `Instruction` and `RawData`; the dictionary of operands is the record `Ops`.
--     Isa/Disjoint: the encodings against each other. Isa/Instr/Fill, Encode, Word: the loop of
--     `encode` over the operands; Isa/Instr/Mask: the mask of CEX.
--   * Objdump: `_parse_op_m` and `decode` of scripts/objdump.py, a round of whose loop is
--     `decode_item`. Objdump/Listing: `objdump` and `merge_same`; Isa/Print: the texts of the
--     items. Objdump/Matches, Word, RoundTrip, Listing/Runs: the proofs.
--   * Asm: the state of scripts/asm.py and the trees that its parser makes. Asm/Numbers: `int`,
--     `parse_imm` and `parse_char`. Asm/Parse: `parse_directive`, `parse_label`, `parse_instr` and
--     `parse_line`, under these names. Asm/File: `parse`. Asm/Labels: `resolve_labels`. Asm/Image:
--     `encode` and the main program. Isa/Synonym: `REGS` and `SYNONYMS` of scripts/isa.py. The
--     proofs: Asm/Numbers/Range, Asm/Conditions (condition suffixes), Asm/Overlap (addresses and
--     synonyms that are not refused), Asm/Labels/Nearest, Arrive and Absolute (references),
--     Asm/Image/Write, Chunks, Size and Layout (the bytes of the binary) and Asm/Image/Fetch (the
--     binary in the simulator).
--   * Sim/State: the fields of `Sim`, the callbacks with a state of their own, and the `_write`
--     methods; a method is an action that changes the state or raises. Sim/Exec: a function for
--     each method that runs an instruction, under its name without the underscore (`invert` for
--     `_not`, `read_in` for `_in`). Sim/Tick: `tick`, `_fetch`, `_check_run`; `exec` is the table
--     `funcs`, `run_item` what `tick` does with an instruction. Sim/Host: the main program. The
--     other files below Sim hold proofs: Step (one instruction), Flow (conditions) with
--     Flow/Skip (a CEX none of whose followers run), Jump, Window and the files below it (the
--     counter of CARRY, ANDP and ORP), Block (LDM and STM), Add and Negative (sums), Registers (the
--     invariant), Output (what a run sends).
--   * Sqi: `Memory` of scripts/sqi.py, and the cycle of `_run_mem` of scripts/tb.py. Sqi/Transfer
--     and the files below it: whole transfers.
--   * Uart: `URX` and `UTX` of scripts/uart.py. Uart/Line: both on one line.
--   * Split: `split` of scripts/hexdump.py, and the merge in `_check_mem_writes` of scripts/tb.py.
--     Split/Dump: the texts of the two memories.
--   * Bench: `Callback` of scripts/tb.py with its scoreboards, and the fields of `TestBench`; the
--     signals of the hardware are the record `Rtl`. Bench/Check: `_check_pc` and the other checks,
--     under their names without the underscore. Bench/Run: the set-up and a round of each
--     coroutine. The proofs: Bench/Writes (registers), Bench/Stores (memory), Bench/Lockstep (an
--     instruction), Bench/Stream (the serial lines over a whole test) and Bench/Program (the two
--     memories).
--   * Tgen: `State` and `Callback` of scripts/tgen.py, with the choices of `random` as a parameter.
--     Tgen/Make: `rand_addr`, `alloc_instr` with the tick that follows it (`emit`), `rand_init` and
--     `end_test`. Tgen/Pick: the loop of `rand_instr` over the operands, a function for each of its
--     tests. Tgen/Choose: the rest of `rand_instr`, and the main program (`generate`). The proofs:
--     Tgen/Load, Tgen/Init (the beginning of a test), Tgen/Space (random addresses), Tgen/Operands
--     (operands that fit), Tgen/Target (what an instruction touches), Tgen/Final and the files below
--     it (the operand that decides on the address), Tgen/Whole and the files below it (each kind of
--     mnemonic), Tgen/Generated (`rand_instr`).
--   * Board: `Podi` of scripts/podi.py, with the serial port as a parameter and the reads as fuel.
--     Board/Pico: `Pico` of scripts/pico.py. Board/Flash: the flash command.
--   * Examples and the files below it: the theorems at concrete inputs.
--
-- Bounds and fuel. Python's integers are ℕ or ℤ, with each mask of the code written out. The loop
-- of `decode` runs on the length of the data as fuel, since a round takes two bytes; the loop of
-- `_parse_op_m` on its value, which each round halves; `_ldstm` on sixteen rounds, since the
-- register number wraps; `bit_length` and the digits of a number on the number itself; the includes
-- of the assembler on the depth that they may have, behind which Python raises too; the choices
-- of a random address and of a mnemonic on how many there are; and the main loop on
-- `args.timeout`, as in the code. The words that the test bench sends are cut to sixteen bits at
-- the set-up, since `UTX` sends no other bits of them.
--
-- Not modelled: the printed traces and logs, the command lines and files, the parser of
-- the grammar, which is a library's and a parameter here, the clock, the reset and the waiting for
-- edges in the test bench, and the hardware itself, which is not in Python.
pub mod Prelude
pub mod Isa
pub mod Objdump
pub mod Asm
pub mod Sim
pub mod Sqi
pub mod Uart
pub mod Split
pub mod Bench
pub mod Tgen
pub mod Board
pub mod Examples
