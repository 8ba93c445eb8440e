-- ===== src/Lib.antt =====
-- A model of the state machines of nagent, a self-hosted assistant server: what limits its clients,
-- what keeps its short-lived state, its speech sessions from the upgrade to the transcript, the system
-- messages of a chat turn, and the loop that runs its tool calls.
--
-- Parts and files. Paths are those of the repository.
-- - Prelude: shared names. `Prelude.Words` has the saturating and shifting operations of u32 and u64
--   and the units of `std::time`; a `Duration` or an `Instant` is its number of nanoseconds.
--   `Prelude.Text` has a `str` as the list of its code points.
-- - Collections: `DashMap`, the interface of the maps of that crate and of `std`, with the laws that
--   the program relies on. The components take it as a parameter; `Collections.Assoc` has the
--   association lists that implement it and that the concrete runs use.
-- - Net: `IpAddr` and its loopback test.
-- - Support: crates/nagent-support/src. `SweepClock`, `Windowed` (`WindowedBucket`) and `WindowedMap`
--   (`WindowedBucketMap`), `TokenBucket` and `TokenBucketMap` are ratelimit.rs, `TtlMap` is ttl_map.rs.
-- - RateLimit: crates/nagent-server/src/rate_limit.rs, the token bucket of each address, with the
--   middleware of http/llm_guards.rs and the trusted proxies of config/trusted_proxies.rs.
-- - Auth.LoginRateLimiter: crates/nagent-server/src/auth/login_rate_limit.rs, three
--   `WindowedBucketMap`s, for the pair of account and host, the account and the host.
-- - Stt.WsConcurrency: crates/nagent-server/src/stt/ws_concurrency.rs. The code's atomic actions are
--   the operations; `Threads` runs those of any number of threads in any order.
-- - Stt.Proto: crates/stt-proto/src/lib.rs, the frames of the speech protocol, over the `postcard`
--   crate, which is a parameter. Stt.Validation: stt/validation.rs, with the limits of config/limits.rs.
-- - Stt.Session: stt/session.rs, with the router of stt/result_router.rs and the pass of
--   stt/watchdog.rs. `Stt.Channel` is the interface of the channels of `tokio`.
-- - Stt.Pool: crates/stt-core/src/worker.rs and job.rs, the jobs that the inference workers are sent.
-- - Stt.Inbound and Stt.Connection: stt/ws_handler.rs. `Inbound` is `handle_inbound` and what becomes of
--   its job; `Inbound.Runs` runs the tasks of the server in any order. `Connection` is `ws_upgrade`,
--   which asks `RateLimit` and `Stt.WsConcurrency`, and `ws_connection`, whose loop runs over the list of
--   what happens to the socket.
-- - Llm.Prompt: llm/prompt.rs and llm/privacy.rs, the system messages that `chat_completions` of
--   llm/proxy.rs adds to a conversation, and the switches that take them out.
-- - Oauth.StateStore: crates/nagent-server/src/oauth/state.rs, over `TtlMap`.
-- - Llm.Permission: crates/nagent-server/src/llm/permission.rs, the decisions that a user writes on
--   tool calls and, in `Store`, the approvals that wait and the overrides of a session.
-- - Llm.Sse: crates/nagent-server/src/llm/sse.rs, the frame parser, the stream, in `ToolCalls` the
--   accumulator of tool calls and in `Round` a round: the frames that it forwards and its outcome.
-- - Llm.DiscoveredTools: crates/nagent-server/src/llm/discovered_tools.rs.
-- - Llm.ToolLoop: crates/nagent-server/src/llm/tool_loop.rs, with build_tools_for_round of llm/proxy.rs.
--   `Dispatch` has one tool call, `Tools` the tools that a request offers, `Rounds` the loop. It uses
--   `Llm.Sse.Round` for each round, the permission store, the discovered tools and the agents, of which
--   `Types` and Agents.Context have the interface (crates/nagent-agents/src/agents.rs). The model server,
--   the agents and the JSON parser are parameters; `Phases` is the protocol of the frames.
-- - Llm.Intercept: `run_permission_intercept` of llm/permission.rs, which the proxy runs before the tool
--   loop: it takes from the permission store what `Dispatch.refuse` has put there.
-- - Agents.Egress: crates/nagent-agents/src/egress.rs, the policy on addresses (`Ranges` describes it
--   by ranges) and, in `Fetch`, the check of a URL and the bounded reading of a body. The URL parser
--   and the resolver are parameters.
--
-- An operation has the name of the function that it models, takes the state first and returns the
-- state with the result. The clock is an argument: each reading that a function takes is one number.
-- Three loops run on fuel. `enforce_cap`, the eviction loop of `TtlMap.insert`, takes one entry out each
-- time, so the number of entries is fuel enough (`Support.TtlMap.Capacity`). `drain`, the loop of a
-- round, takes at least one character for each event, so one step more than the characters is enough
-- (`Llm.Sse.Progress`).
-- `run_tool_loop` spends a tool round or an auto-continue in each round that goes on, so the sum of
-- those that are left is enough (`Llm.ToolLoop.Rounds.Termination`). The levels of a token bucket are
-- floating-point numbers in the code and exact whole numbers in the model: one token is as many units
-- as a minute has nanoseconds, and rounding errors are left out. Other integers have no bound unless the
-- code wraps or saturates them. The tool loop is that of a client that stays connected. The permission
-- store is shared by all requests: `Outside.meanwhile` is any change that other requests make to it
-- before a turn looks at it again. A stream gives bytes, and the text of a chunk is what the decoder makes
-- of that chunk alone (`Llm.Sse.stream_of`). A channel is the log of what is sent over it, which does not
-- depend on its capacity (`Stt.Channel`).
--
-- Not modelled: the text of the JSON and of the frames that the tool loop writes, what it logs, and a
-- client that disconnects; the database, HTTP routing, static files, OAuth and OIDC exchanges, the
-- agents' calls of remote services, the speech engines, the origin guard of the upgrade to a socket and
-- the texts of its errors (arguments of the model), the command line and the
-- configuration files, which call other crates and services; `Debug` output; two operations of one
-- `TtlMap`, one `WindowedBucketMap` or one `TokenBucketMap` that interleave; other requests that change
-- the discovered tools of a session during its turn.
pub mod Prelude
pub mod Collections
pub mod Support
pub mod Net
pub mod RateLimit
pub mod Auth
pub mod Stt
pub mod Oauth
pub mod Llm
pub mod Agents
