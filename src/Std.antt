-- ===== src/Std.antt =====
-- The small libraries of core/std.
pub mod Text
pub mod HashTable
pub mod Queue
