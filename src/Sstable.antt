-- ===== src/Sstable.antt =====
-- The table files: src/sstable/.
pub mod Header
pub mod Footer
pub mod Index
pub mod Varint
pub mod Snappy
pub mod Block
pub mod Bloom
pub mod Writer
pub mod Reader
