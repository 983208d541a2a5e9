-- ===== src/Kernel/Alloc.antt =====
-- The kernel's allocators: src/plix/alloc.
pub mod Buddy
