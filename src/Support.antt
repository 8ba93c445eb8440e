-- ===== src/Support.antt =====
-- crates/nagent-support: the bounded in-memory primitives of the server.
pub mod SweepClock
pub mod Windowed
pub mod WindowedMap
pub mod TtlMap
pub mod TokenBucket
pub mod TokenBucketMap
