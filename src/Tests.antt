-- ===== src/Tests.antt =====
-- Runs of the code on concrete inputs, and instances of the theorems.
mod LookupTests
mod AclTests
mod UtilsTests
mod FileTests
mod DirTests
mod Memory
mod CollectionTests
mod Utf8Tests
mod ApartTests
mod IteratorTests
mod KeyValueTests
mod MetaTests
