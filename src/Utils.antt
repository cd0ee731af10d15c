-- ===== src/Utils.antt =====
-- pkg/utils: paths, hex strings and addresses. A Go string is the list of its bytes.
pub mod Paths
pub mod Hex
pub mod Address
pub mod Decimal
pub mod Sharing
