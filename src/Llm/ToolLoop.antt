-- ===== src/Llm/ToolLoop.antt =====
-- crates/nagent-server/src/llm/tool_loop.rs: the rounds of a chat completion with tool calls.
-- `Types` has what the loop keeps and sends, `Tools` the rebuilding of the offered tools, `Dispatch`
-- one tool call and `Rounds` the loop.
pub mod Types
pub mod Tools
pub mod Dispatch
pub mod Rounds
mod Tests
pub mod Phases
pub mod Turns
pub mod Example
