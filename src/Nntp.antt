-- ===== src/Nntp.antt =====
-- The NNTP server of src/nksrv/lib/nntp.
pub mod Syntax
pub mod Range
pub mod Dates
pub mod Wildmat
pub mod Args
pub mod Session
mod Tests
mod SessionTests
pub mod Fixture
