-- ===== src/Graph/Store/Nodes.antt =====
-- internal/storage/graphstore/store.go: the operations on nodes keep the graph linked.
pub mod Unindex
pub mod Cut
pub mod Delete
pub mod Writes
pub mod Changes
