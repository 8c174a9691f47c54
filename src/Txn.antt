-- ===== src/Txn.antt =====
-- internal/txn: the transaction manager.
pub mod Version
pub mod Backend
pub mod Versions
pub mod Manager
pub mod MemoryBackend
pub mod Open
