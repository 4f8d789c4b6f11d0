-- ===== src/Tools.antt =====
-- The binary patch tool and the numbers that it reads.
pub mod Hex
pub mod Patch
