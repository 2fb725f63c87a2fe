-- ===== src/Examples.antt =====
-- The theorems at concrete inputs, with the data that these take.
pub mod Code
pub mod Assembler
pub mod Bench
pub mod Tests
pub mod Serial
pub mod Simulator
