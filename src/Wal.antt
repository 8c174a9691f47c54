-- ===== src/Wal.antt =====
-- internal/wal: the records of the write-ahead log and the reader that walks them.
pub mod Words
pub mod Record
pub mod Reader
