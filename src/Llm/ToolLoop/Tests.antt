-- ===== src/Llm/ToolLoop/Tests.antt =====
-- A turn of two rounds: the model calls `search_tools`, which runs, and then `email_send`, which asks
-- for confirmation. The world is the list of the agents that have run.
use nagent.Prelude.{
  ◌≡◌, ◌≤◌, refl, subst, Bool-cases, false, none, some, List, any, inl, inr, arith,
}
use nagent.Prelude.Text.{Text, codes, text_eq}
use nagent.Llm.Permission.Store.{PermissionStore}
use nagent.Llm.ToolLoop.Types.{Agent, Context, LoopState, get_agent}
use nagent.Llm.ToolLoop.Dispatch.{call_context}
use mathlib.Core.Option.{some-injective}
use nagent.Llm.ToolLoop.Phases.{running, finished, phase}
use nagent.Llm.ToolLoop.Rounds.{run_tool_loop}
use nagent.Llm.ToolLoop.Rounds.Termination.{run_tool_loop_ends}
use nagent.Llm.ToolLoop.Rounds.Endings.{phase-run_tool_loop}
use nagent.Llm.ToolLoop.Rounds.Consent.{Permitted, consent-run_tool_loop}
use nagent.Llm.ToolLoop.Tools.{build_tools_for_round, search_tools_name}
use nagent.Llm.ToolLoop.Tools.Growth.{offered, offered-build_tools_for_round}
use nagent.Llm.ToolLoop.Example.{
  setup, email_send, search_agent, email_agent, agents, outside, settings, nothing_found, start,
  first_stream,
}

run_tool_loop_ends_example :
    (l : LoopState setup) × (run_tool_loop outside settings 6 start first_stream ≡ some l)
run_tool_loop_ends_example = run_tool_loop_ends outside settings 6 start first_stream (omega arith)

turn_ends : (l : LoopState setup) × (run_tool_loop outside settings 6 start first_stream ≡ some l)
turn_ends = run_tool_loop_ends outside settings 6 start first_stream (omega arith)

phase-run_tool_loop_example : phase running turn_ends.0.sent ≡ finished
unfolding phase
phase-run_tool_loop_example =
    phase-run_tool_loop outside settings 6 start turn_ends.0 first_stream refl turn_ends.1

-- no mail has been sent
NoMail : List Text → Type 0
NoMail w = any (λ n. text_eq n email_send) w ≡ false

abbrev Asks : Text → Agent (List Text) Text (Context setup) → Type 0
Asks name a =
    (args : Text) (w : List Text) (st : PermissionStore setup.sessions)
    → Permitted outside settings st name a args
    → NoMail w
    → NoMail (a.invoke w (call_context outside settings) args).0

search_agent-Asks : (name : Text) → Asks name search_agent
unfolding NoMail text_eq
search_agent-Asks name args w st permitted h = h

email_agent-Asks : (name : Text) → Asks name email_agent
unfolding Permitted
email_agent-Asks name args w st (inl asked) h = ground (arith, asked)
email_agent-Asks name args w st (inr (_, forced)) h = ground (arith, forced)

asks_first :
    (name : Text) (a : Agent (List Text) Text (Context setup)) (args : Text) (w : List Text)
    (st : PermissionStore setup.sessions)
    → get_agent agents name ≡ some a
    → Permitted outside settings st name a args
    → NoMail w
    → NoMail (a.invoke w (call_context outside settings) args).0
unfolding get_agent
asks_first name a args w st found = elim (Bool-cases (text_eq search_tools_name name)) [
  | inl search ↦
      let e = some-injective search_agent a (rw (search, get_agent) at found) in
      subst (Asks name) e (search_agent-Asks name) args w st
  | inr other ↦ elim (Bool-cases (text_eq email_send name)) [
    | inl email ↦
        let e = some-injective email_agent a (rw (other, email, get_agent) at found) in
        subst (Asks name) e (email_agent-Asks name) args w st
    | inr unknown ↦ ground (arith, rw (other, unknown, get_agent) at found)
  ]
]

consent-run_tool_loop_example : NoMail turn_ends.0.world
unfolding NoMail
consent-run_tool_loop_example =
    consent-run_tool_loop outside settings (λ w st. NoMail w) (λ w st b h. h) (λ sent w st h. h)
      (λ w st sid id name args evicted_at now h. h) asks_first 6 start turn_ends.0 first_stream refl
      turn_ends.1

offered-build_tools_for_round_example :
    offered search_tools_name
      (build_tools_for_round (some agents) none nothing_found (some 7) (codes "hi"))
    ≤ 1
offered-build_tools_for_round_example =
    offered-build_tools_for_round search_tools_name (some agents) none nothing_found (some 7)
      (codes "hi")
