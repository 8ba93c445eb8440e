-- ===== src/Llm/ToolLoop/Types.antt =====
-- What the tool loop keeps, sends, and takes from outside. A message is what the program reads and
-- writes of its JSON object. The model server, the clock, the agents and the JSON parser are given;
-- `World` is the state of everything that they can see or change.
use nagent.Prelude.{ℕ, Bool, Option, none, some, List, [], ◌∷◌, ◌++◌, if◌then◌else◌}
use nagent.Prelude.Text.{Text, text_eq}
use nagent.Collections.{DashMap, Present}
use nagent.Agents.Context.{UserContext}
use nagent.Llm.DiscoveredTools.{DiscoveredTools}
use nagent.Llm.Permission.Store.{SessionMaps, SessionPermissionState, PermissionStore}
use nagent.Llm.Sse.{SseStream}
use nagent.Llm.Sse.ToolCalls.{PendingToolCall}
use nagent.Llm.Sse.Round.{Choice}

-- a typed part of a message's content
pub record Part : Type 0 where
  pub kind : Option Text
  pub text : Option Text

pub data Content : Type 0 where
  text : Text → Content
  parts : List Part → Content
  other : Content

pub record Message : Type 0 where
  pub role : Option Text
  pub content : Content
  pub tool_calls : Option (List PendingToolCall)
  pub tool_call_id : Option Text

-- an offered tool: the name in its `function`, and its JSON
pub record Tool (Json : Type 0) : Type 0 where
  pub name : Option Text
  pub definition : Json

-- the body of the next request; `none` where there is no array of messages
pub record Body (Json : Type 0) : Type 0 where
  pub messages : Option (List Message)
  pub tools : List (Tool Json)

pub data ConfirmationDecision : Type 0 where
  allow : ConfirmationDecision
  needs_confirmation : Text → ConfirmationDecision

pub data Invocation : Type 0 where
  ok : Text → Invocation
  err : Text → Invocation

pub record Agent (World Json Context : Type 0) : Type 0 where
  pub name : Text
  pub definition : Json
  pub requires_confirmation : Context → Json → ConfirmationDecision
  pub allow_session_override : Bool
  pub invoke : World → Context → Json → World × Invocation

pub data Response : Type 0 where
  unreachable : Text → Response
  rejected : ℕ → Text → Response
  opened : SseStream → Response

-- the types and the stores
pub record Setup : Type 1 where
  pub World : Type 0
  pub Json : Type 0
  pub Uuid : Type 0
  pub Resolver : Type 0
  pub Memory : Type 0
  pub maps : SessionMaps Json
  pub sessions : DashMap Uuid (SessionPermissionState maps)
  pub names : DashMap Text Present
  pub discoveries : DashMap Uuid names.Map

-- the frames that the channel gets; `broken` is an I/O error that cuts the stream
pub data ErrorEvent : Type 0 where
  upstream_error : ℕ → Text → ErrorEvent
  thinking_truncated : ℕ → ErrorEvent
  agent_loop_exceeded : ℕ → ErrorEvent

pub data Break : Type 0 where
  connect_failed : Text → Break
  read_failed no_messages : Break

pub data Frame (Json : Type 0) : Type 0 where
  upstream : Text → Frame Json
  tool_call : PendingToolCall → Text → ℕ → Frame Json
  tool_result : Text → Text → Bool → Text → Frame Json
  needs_approval : Text → Text → Text → Json → Frame Json
  round_paused : Text → Text → Text → Frame Json
  error_event : ErrorEvent → Frame Json
  done : Frame Json
  broken : Break → Frame Json

module _ (s : Setup) where
  abbrev pub Context : Type 0
  Context = UserContext s.Uuid s.Resolver s.Memory

  abbrev pub Registry : Type 0
  Registry = List (Agent s.World s.Json Context)

  -- what the loop calls
  pub record Outside : Type 0 where
    pub agents : Registry
    -- `ToolsRouter::pre_select`
    pub router : Option (Text → ℕ → List Text)
    pub from_str : Text → Option s.Json
    pub null : s.Json
    pub parse : Text → Option (List Choice)
    pub post : s.World → Body s.Json → s.World × Response
    -- the readings of the clock that `set_pending` takes
    pub clock : s.World → ℕ × ℕ
    -- what the other requests have done to the permissions, which all requests share, between two
    -- moments at which the turn looks at them: any function of what the turn has sent, of the world
    -- and of the permissions
    pub meanwhile :
        List (Frame s.Json) → s.World → PermissionStore s.sessions → PermissionStore s.sessions

  -- the arguments that do not change
  pub record Settings : Type 0 where
    pub max_rounds : ℕ
    pub max_auto_continues : ℕ
    pub chat_session_id : Option s.Uuid
    pub user_id : s.Uuid
    pub resolver : Option s.Resolver
    pub memory_source : Option s.Memory

  -- `permission_store` is the shared store as the turn last saw it. `tool_round` is a `u32` that goes
  -- up to one more than `max_rounds` before the turn ends.
  pub record LoopState : Type 0 where
    pub world : s.World
    pub body : Body s.Json
    pub tool_round : ℕ
    pub auto_continue_count : ℕ
    pub permission_store : PermissionStore s.sessions
    pub discovered_tools : Option (DiscoveredTools s.names s.discoveries)
    pub sent : List (Frame s.Json)

  -- whether the function goes on or has returned
  pub data Turn : Type 0 where
    continues : LoopState → Turn
    returned : LoopState → Turn

-- `messages.push`
abbrev pub pushed : Message → Option (List Message) → Option (List Message)
pushed msg none = none
pushed msg (some msgs) = some (msgs ++ msg ∷ [])

-- `AgentRegistry::get`
unfoldable pub get_agent : {W J C : Type 0} → List (Agent W J C) → Text → Option (Agent W J C)
get_agent [] name = none
get_agent (a ∷ agents) name =
    let rest = get_agent agents name in if text_eq a.name name then some a else rest

module _ {s : Setup} where
  -- `tx.send`
  unfoldable pub send : LoopState s → Frame s.Json → LoopState s
  send l f = record l { sent = l.sent ++ f ∷ [] }

  unfoldable pub push : LoopState s → Message → LoopState s
  push l msg = record l { body = record l.body { messages = pushed msg l.body.messages } }
