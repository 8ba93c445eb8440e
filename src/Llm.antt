-- ===== src/Llm.antt =====
-- crates/nagent-server/src/llm: the chat completion with its tools.
pub mod Permission
pub mod ToolLoop
pub mod Intercept
pub mod Sse
pub mod DiscoveredTools
pub mod Prompt
