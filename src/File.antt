-- ===== src/File.antt =====
-- pkg/file: the reader of a file's blocks.
pub mod Reader
pub mod Meta
