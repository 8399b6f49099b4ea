-- ===== src/Sync.antt =====
-- C Reversed/elements/sSyncStream.h and sSyncStream.cpp: the streams that a packet's body is written
-- to and read from, field by field.
pub mod Types
pub mod Reader
pub mod Writer
pub mod Codec
pub mod Message
pub mod RoundTrip
pub mod Faults
mod Tests
