-- ===== src/Isa.antt =====
-- scripts/isa.py: registers, encodings and instructions.
pub mod Mnem
pub mod Encoding
pub mod Disjoint
pub mod Instr
pub mod Synonym
pub mod Print
