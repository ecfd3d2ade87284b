-- ===== src/Puller.antt =====
-- The NNTP client that fetches articles from another server: src/nksrv/lib/nntp/client_common.go,
-- client_puller_utils.go and client_puller.go.
pub mod Todo
pub mod Response
pub mod Lines
pub mod Lists
pub mod Slices
pub mod Group
pub mod HdrList
pub mod OverList
pub mod SliceList
mod Tests
