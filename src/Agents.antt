-- ===== src/Agents.antt =====
-- crates/nagent-agents/src: what the tools of the assistant share.
pub mod Egress
pub mod Context
