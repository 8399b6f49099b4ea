-- ===== src/NetSession.antt =====
-- C Reversed/net/NetSession.h and NetSession.cpp, the build for Vice City Stories (GTA_LIBERTY not
-- defined): packets are queued by group, sent reliably or not, acknowledged and put back in order.
pub mod Groups
pub mod Batch
pub mod Window
pub mod Reliable
pub mod Requests
mod Tests
