-- ===== src/Llm/Intercept/Tests.antt =====
-- A mail that the tool loop has refused to send, and the user's approval of it.
use nagent.Prelude.{◌≡◌, refl, none, some, [], ◌∷◌, true, arith}
use nagent.Prelude.Text.{codes, text_eq, utf8_len}
use nagent.Llm.Permission.{approve, is_safe_id}
use nagent.Llm.Permission.Prefix.{is_safe, written}
use nagent.Llm.Permission.Store.{PermissionStore}
use nagent.Llm.Permission.Store.Pending.{waiting}
use nagent.Llm.Sse.ToolCalls.{PendingToolCall}
use nagent.Llm.ToolLoop.Types.{Message, get_agent}
use nagent.Llm.ToolLoop.Dispatch.{args_value, refuse}
use nagent.Llm.ToolLoop.Example.{
  setup, outside, settings, start, agents, email_agent, email_send, question,
}
use nagent.Llm.Intercept.{
  last_user, user_message, Reply, Caller, approved_context, run_permission_intercept,
}
use nagent.Llm.Intercept.Approved.{IsApproved, run_permission_intercept-IsApproved}
use nagent.Llm.Intercept.Refused.{refuse-approved}

abbrev call : PendingToolCall
call = record { id = codes "call_1"; name = some email_send; arguments = codes "{}" }

abbrev refused_store : PermissionStore setup.sessions
refused_store = (refuse outside settings start call email_send (codes "it sends")).permission_store

abbrev approval : Message
approval = user_message (written (approve (codes "call_1")) (codes " thanks"))

abbrev caller : Caller setup
caller = record {
  to_string = λ j. some j;
  agents = some agents;
  session_id = some 7;
  user_id = 1;
  resolver = none;
  now = 60;
}

abbrev Approved : Type 0
Approved =
    (r : Reply setup) × (run_permission_intercept caller (some (question ∷ approval ∷ [])) []
        refused_store
      ≡ some r)
    × (r.world
        ≡ (email_agent.invoke [] (approved_context caller email_send)
            (args_value outside settings call)).0)
    × (waiting r.permission_store 90 7 (codes "call_1") ≡ none)

registered : get_agent agents email_send ≡ some email_agent
unfolding get_agent text_eq
registered = refl

found : last_user (question ∷ approval ∷ []) ≡ some (question ∷ [], approval, [])
unfolding last_user text_eq
found = refl

safe : is_safe (approve (codes "call_1")) ≡ true
unfolding is_safe_id utf8_len
safe = refl

approved : Approved
approved =
    refuse-approved outside settings start call email_send (codes "it sends") 7 caller agents
      email_agent [] (question ∷ approval ∷ []) (question ∷ []) [] approval (codes " thanks") 90
      refl refl refl registered (omega arith) (omega arith) found refl safe (omega arith)

refuse-approved_example : Approved
refuse-approved_example =
    refuse-approved outside settings start call email_send (codes "it sends") 7 caller agents
      email_agent [] (question ∷ approval ∷ []) (question ∷ []) [] approval (codes " thanks") 90
      refl refl refl registered (omega arith) (omega arith) found refl safe (omega arith)

run_permission_intercept-IsApproved_example : IsApproved caller [] refused_store approved.0.world
run_permission_intercept-IsApproved_example =
    run_permission_intercept-IsApproved caller (some (question ∷ approval ∷ [])) [] refused_store
      approved.0 approved.1
