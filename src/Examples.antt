-- ===== src/Examples.antt =====
-- A machine on which the program runs, and the theorems at concrete inputs.
pub mod Codec
pub mod Machine
