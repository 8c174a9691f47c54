-- ===== src/Memory.antt =====
-- internal/storage/memory/engine.go.
pub mod Space
pub mod Snapshot
pub mod Engine
pub mod Cursor
