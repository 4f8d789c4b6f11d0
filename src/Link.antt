-- ===== src/Link.antt =====
-- The linker zld: the code under core/link.
pub mod Hash
pub mod Symbols
pub mod Layout
pub mod Files
pub mod Emit
pub mod Dynamic
pub mod GnuHash
pub mod Reloc
pub mod Import
pub mod Export
pub mod Pe
pub mod Coff
pub mod DtHash
pub mod Section
pub mod Read
