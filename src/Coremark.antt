-- ===== src/Coremark.antt =====
-- coremark/: the benchmark program that the kernel links when it is built with `coremark=true`.
pub mod Crc
pub mod State
pub mod Matrix
pub mod ListJoin
pub mod Printf
pub mod Parseval
pub mod Main
mod Tests
