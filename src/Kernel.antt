-- ===== src/Kernel.antt =====
-- The kernel and its core library: src/plix and lib/core.
pub mod Math
pub mod Alloc
pub mod Schedule
mod Tests
