-- ===== src/Llm/ToolLoop/Example.antt =====
-- The agents, the model server and the settings of the concrete turns. Another request keeps giving
-- the session an override for `email_send`, which honours none.
use native.Mathlib.Decide.{ℕ_discrete}
use nagent.Prelude.{ℕ, false, Option, none, some, List, [], ◌∷◌, ◌++◌}
use nagent.Prelude.Text.{Text, codes}
use nagent.Collections.{DashMap, discrete_map, Present}
use nagent.Llm.DiscoveredTools
use nagent.Llm.DiscoveredTools.{DiscoveredTools}
use nagent.Llm.Permission.Store
use nagent.Llm.Permission.Store.{
  PendingApproval, SessionMaps, SessionPermissionState, PermissionStore, add_override,
}
use nagent.Llm.Sse.{SseStream, bytes}
use nagent.Llm.Sse.Round.{Choice}
use nagent.Llm.ToolLoop.Types.{
  text, Message, Body, Agent, ConfirmationDecision, allow, needs_confirmation, ok, opened, Setup,
  Context, Outside, Settings, LoopState,
}
use nagent.Llm.ToolLoop.Tools.{search_tools_name}

pub Text-discrete : Discrete Text
Text-discrete = hlevel ℕ_discrete

abbrev pub maps : SessionMaps Text
maps = record {
  pendings = discrete_map Text-discrete (PendingApproval Text);
  overrides = discrete_map Text-discrete Present;
}

abbrev pub names : DashMap Text Present
names = discrete_map Text-discrete Present

abbrev pub setup : Setup
setup = record {
  World = List Text;
  Json = Text;
  Uuid = ℕ;
  Resolver = Unit;
  Memory = Unit;
  maps = maps;
  sessions = discrete_map ℕ_discrete (SessionPermissionState maps);
  names = names;
  discoveries = discrete_map ℕ_discrete names.Map;
}

abbrev pub email_send : Text
email_send = codes "email_send"

-- an agent that notes that it has run
abbrev pub noted : Text → ConfirmationDecision → Agent (List Text) Text (Context setup)
noted name decision = record {
  name = name;
  definition = name;
  requires_confirmation = λ ctx args. decision;
  allow_session_override = false;
  invoke = λ w ctx args. (name ∷ w, ok (codes "done"));
}

abbrev pub search_agent : Agent (List Text) Text (Context setup)
search_agent = noted search_tools_name allow

abbrev pub email_agent : Agent (List Text) Text (Context setup)
email_agent = noted email_send (needs_confirmation (codes "it sends"))

abbrev pub agents : List (Agent (List Text) Text (Context setup))
agents = search_agent ∷ email_agent ∷ []

-- a payload is the name of the agent that it calls
abbrev pub calls : Text → Option (List Choice)
calls payload = some (
    record {
      content = none;
      reasoning = none;
      tool_calls = some (
          record {
            index = some 0;
            id = some (codes "call");
            name = some payload;
            arguments = some [];
          }
          ∷ []);
      finish_reason = none;
    }
    ∷ [])

abbrev pub stream_of : Text → SseStream
stream_of payload = record { buf = []; src = bytes (codes "data: " ++ payload) ∷ [] }

abbrev pub outside : Outside setup
outside = record {
  agents = agents;
  router = none;
  from_str = λ t. none;
  null = [];
  parse = calls;
  post = λ w b. (w, opened (stream_of email_send));
  clock = λ w. (0, 0);
  meanwhile = λ sent w st. add_override st 7 email_send 0;
}

abbrev pub settings : Settings setup
settings = record {
  max_rounds = 4;
  max_auto_continues = 2;
  chat_session_id = some 7;
  user_id = 1;
  resolver = none;
  memory_source = none;
}

abbrev pub question : Message
question = record {
  role = some (codes "user");
  content = text (codes "hi");
  tool_calls = none;
  tool_call_id = none;
}

abbrev pub body : Body Text
body = record { messages = some (question ∷ []); tools = [] }

abbrev pub no_permissions : PermissionStore setup.sessions
no_permissions = Store.new

abbrev pub nothing_found : DiscoveredTools names setup.discoveries
nothing_found = DiscoveredTools.new

abbrev pub start : LoopState setup
start = record {
  world = [];
  body = body;
  tool_round = 0;
  auto_continue_count = 0;
  permission_store = no_permissions;
  discovered_tools = some nothing_found;
  sent = [];
}

abbrev pub first_stream : SseStream
first_stream = stream_of search_tools_name
