-- ===== src/TestSrv.antt =====
-- src/nksrv/lib/nntp/testsrv: the provider of articles that the NNTP server is tried with.
pub mod Data
pub mod Articles
pub mod Groups
pub mod Overview
pub mod Posts
pub mod Answer
pub mod Invariant
pub mod Serving
pub mod Rounds
mod Tests
