-- ===== src/Agents/Context.antt =====
-- crates/nagent-agents/src/agents.rs: `UserContext`, what an agent is told of its caller. The sources
-- of secrets and memories are parameters; the service registry and the secret cache start empty in
-- each context and are left out.
use nagent.Prelude.{Bool, Option, none, some, List, [], ◌∷◌, ◌++◌, any, if◌then◌else◌}
use nagent.Prelude.Text.{Text, text_eq}

pub record UserContext (Uuid Resolver Memory : Type 0) : Type 0 where
  pub user_id : Uuid
  pub resolver : Option Resolver
  pub memories : Option Memory
  pub chat_session_id : Option Uuid
  pub invoked_this_turn : List Text

module _ {Uuid Resolver Memory : Type 0} where
  unfoldable pub for_tests : Uuid → UserContext Uuid Resolver Memory
  for_tests user_id = record {
    user_id = user_id;
    resolver = none;
    memories = none;
    chat_session_id = none;
    invoked_this_turn = [];
  }

  unfoldable pub for_chat_session : Uuid → Option Resolver → Uuid → UserContext Uuid Resolver Memory
  for_chat_session user_id resolver chat_session_id = record {
    user_id = user_id;
    resolver = resolver;
    memories = none;
    chat_session_id = some chat_session_id;
    invoked_this_turn = [];
  }

  unfoldable pub for_chat_session_with_memories :
      Uuid → Option Resolver → Memory → Uuid → UserContext Uuid Resolver Memory
  for_chat_session_with_memories user_id resolver memory_source chat_session_id = record {
    user_id = user_id;
    resolver = resolver;
    memories = some memory_source;
    chat_session_id = some chat_session_id;
    invoked_this_turn = [];
  }

  unfoldable pub was_invoked : UserContext Uuid Resolver Memory → Text → Bool
  was_invoked ctx name = any (λ n. text_eq n name) ctx.invoked_this_turn

  unfoldable pub record_invocation :
      UserContext Uuid Resolver Memory → Text → UserContext Uuid Resolver Memory
  unfolding was_invoked
  record_invocation ctx name =
      if was_invoked ctx name
      then ctx
      else record ctx { invoked_this_turn = ctx.invoked_this_turn ++ name ∷ [] }
