-- ===== src/Stt.antt =====
-- crates/nagent-server/src/stt: the admission of speech sessions, their frames, and their jobs.
pub mod WsConcurrency
pub mod Proto
pub mod Validation
pub mod Channel
pub mod Session
pub mod Pool
pub mod Inbound
pub mod Connection
mod Tests
