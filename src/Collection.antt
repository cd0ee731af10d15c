-- ===== src/Collection.antt =====
-- pkg/collection: the index of a key-value or document table, a radix tree of manifests.
pub mod Entries
pub mod Node
pub mod Manifests
pub mod Types
pub mod Tree
pub mod Index
pub mod Iterator
pub mod KeyValue
