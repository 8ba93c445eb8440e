-- ===== src/Llm/Intercept/Refused.antt =====
-- From a refusal of the tool loop to the approval of the user.
use nagent.Prelude.{ℕ, ◌+◌, ◌<◌, ◌≤◌, ◌≡◌, refl, ap, ◌∙◌, true, ltb, none, some, List, [], arith}
use nagent.Prelude.Text.{Text}
use nagent.Llm.Permission.{approve}
use nagent.Llm.Permission.Prefix.{is_safe, written, parse_decision_prefix-written}
use nagent.Llm.Permission.Store.{
  PendingApproval, PermissionStore, take_pending, set_pending, pending_ttl,
}
use nagent.Llm.Permission.Store.Pending.{waiting, take_pending-waiting, waiting-set_pending}
use nagent.Llm.Sse.ToolCalls.{PendingToolCall}
use nagent.Llm.ToolLoop.Types.{
  text, Message, Agent, Setup, Context, Registry, Outside, Settings, LoopState, get_agent, send,
  push,
}
use nagent.Llm.ToolLoop.Dispatch.{args_value, refuse}
use nagent.Llm.Intercept.{
  last_user, as_str, without_sentinel, Reply, Caller, approved_context, run_approved, run_known,
  run_pending, take_if, answer_taken, decided, with_decision, with_text, with_user,
  run_permission_intercept,
}

module _ {s : Setup} (c : Caller s) where
  abbrev first_reply :
      s.World → PermissionStore s.sessions → List Message → List Message → Text → Reply s
  first_reply world store before after remainder = record {
    world = world;
    permission_store = store;
    messages = without_sentinel before after remainder;
    frames = [];
  }

  -- the message of an approval is read as that
  reads :
      (world : s.World) (store : PermissionStore s.sessions) (msgs before after : List Message)
      (user : Message) (id remainder : Text)
      → last_user msgs ≡ some (before, user, after)
      → user.content ≡ text (written (approve id) remainder)
      → is_safe (approve id) ≡ true
      → run_permission_intercept c (some msgs) world store
        ≡ some (decided c (first_reply world store before after remainder) (approve id))
  unfolding run_permission_intercept with_user with_text with_decision
  reads world store msgs before after user id remainder found said safe =
      ap (with_user c world store) found
      ∙ ap (λ x. with_text c world store before after (as_str x)) said
      ∙ ap (with_decision c world store before after)
          (parse_decision_prefix-written [] (approve id) remainder refl safe)

  -- an approval that waits runs its agent
  runs :
      (r : Reply s) (id : Text) (sid : s.Uuid) (registry : Registry s) (p : PendingApproval s.Json)
      (agent : Agent s.World s.Json (Context s))
      → c.session_id ≡ some sid
      → c.agents ≡ some registry
      → get_agent registry p.tool_name ≡ some agent
      → waiting r.permission_store c.now sid id ≡ some p
      → decided c r (approve id)
        ≡ run_approved c
            (record r { permission_store = (take_pending r.permission_store sid id c.now).0 })
            id
            p
            agent
  unfolding decided answer_taken take_if run_pending run_known
  runs r id sid registry p agent here registered known waits =
      let store = (take_pending r.permission_store sid id c.now).0 in
      let r1 : Reply s = record r { permission_store = store } in
      let taken =
        (take_pending-waiting r.permission_store sid id c.now c.now sid id (omega arith)).0 in
      ap
        (λ x.
          answer_taken c r id (take_if c r.permission_store id x).0
            (take_if c r.permission_store id x).1)
        here
      ∙ ap (answer_taken c r id store) (taken ∙ waits)
      ∙ ap (run_pending c r1 id p) registered
      ∙ ap (run_known c r1 id p) known

-- what `set_pending` has just recorded
recorded-waiting :
    (s : Setup) (store : PermissionStore s.sessions) (sid : s.Uuid) (id tool : Text) (args : s.Json)
    (evicted_at now t : ℕ)
    → evicted_at ≤ t
    → t < now + pending_ttl
    → waiting (set_pending store sid id tool args evicted_at now) t sid id
      ≡ some (record { tool_name = tool; args = args; created_at = now })
recorded-waiting s store sid id tool args evicted_at now t after before =
    let fresh : ltb t (now + pending_ttl) ≡ true = grind (arith, before) in
    waiting-set_pending store sid id tool args evicted_at now t sid id after
    ∙ rw ((s.sessions.key_eq_iff sid sid).1 refl, (s.maps.pendings.key_eq_iff id id).1 refl, fresh)
        refl

module _ {s : Setup} (o : Outside s) (p : Settings s) where
  -- a refused call waits
  refuse-waiting :
      (l : LoopState s) (tc : PendingToolCall) (name reason : Text) (sid : s.Uuid) (t : ℕ)
      → p.chat_session_id ≡ some sid
      → (o.clock l.world).0 ≤ t
      → t < (o.clock l.world).1 + pending_ttl
      → waiting (refuse o p l tc name reason).permission_store t sid tc.id
        ≡ some (record {
          tool_name = name;
          args = args_value o p tc;
          created_at = (o.clock l.world).1;
        })
  unfolding refuse send push
  refuse-waiting l tc name reason sid t here after before =
      let (evicted_at, now) = o.clock l.world in
      let args = args_value o p tc in
      ap
        (λ x.
          waiting
            (elim x as (λ _. PermissionStore s.sessions) [
              | none ↦ l.permission_store
              | some u ↦ set_pending l.permission_store u tc.id name args evicted_at now
            ])
            t sid tc.id)
        here
      ∙ recorded-waiting s l.permission_store sid tc.id name args evicted_at now t after before

  -- A call that the tool loop has refused in a session runs when the user approves it: where the last
  -- message of the user in the next request, within five minutes, begins with the sentinel for the
  -- id of the call, the agent of the call runs once, with the arguments of the call, and nothing
  -- waits under that id from then on. (The id is one that the sentinel can carry, the agent is
  -- registered, and the clock has not gone back.)
  pub refuse-approved :
      (l : LoopState s) (tc : PendingToolCall) (name reason : Text) (sid : s.Uuid) (c : Caller s)
      (registry : Registry s) (agent : Agent s.World s.Json (Context s)) (world : s.World)
      (msgs before after : List Message) (user : Message) (remainder : Text) (t : ℕ)
      → p.chat_session_id ≡ some sid
      → c.session_id ≡ some sid
      → c.agents ≡ some registry
      → get_agent registry name ≡ some agent
      → (o.clock l.world).0 ≤ c.now
      → c.now < (o.clock l.world).1 + pending_ttl
      → last_user msgs ≡ some (before, user, after)
      → user.content ≡ text (written (approve tc.id) remainder)
      → is_safe (approve tc.id) ≡ true
      → c.now ≤ t
      → (r : Reply s) × (run_permission_intercept c
            (some msgs)
            world
            (refuse o p l tc name reason).permission_store
          ≡ some r)
        × (r.world ≡ (agent.invoke world (approved_context c name) (args_value o p tc)).0)
        × (waiting r.permission_store t sid tc.id ≡ none)
  unfolding run_approved
  refuse-approved l tc name reason sid c registry agent world msgs before after user remainder t
        here session registered known evicted fresh found said safe later =
      let store = (refuse o p l tc name reason).permission_store in
      let r0 = first_reply c world store before after remainder in
      let waits = refuse-waiting l tc name reason sid c.now here evicted fresh in
      let gone = (take_pending-waiting store sid tc.id c.now t sid tc.id later).1 in
      (
        run_approved c (record r0 { permission_store = (take_pending store sid tc.id c.now).0 })
            tc.id
            (record {
              tool_name = name;
              args = args_value o p tc;
              created_at = (o.clock l.world).1;
            })
            agent,
        reads c world store msgs before after user tc.id remainder found said safe
            ∙ ap (λ x. some x)
                (runs c r0 tc.id sid registry _ agent session registered known waits),
        refl,
        gone
            ∙ rw
                (
                  (s.sessions.key_eq_iff sid sid).1 refl,
                  (s.maps.pendings.key_eq_iff tc.id tc.id).1 refl,
                )
                refl,
      )
