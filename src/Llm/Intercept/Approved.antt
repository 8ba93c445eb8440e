-- ===== src/Llm/Intercept/Approved.antt =====
-- Which agent a decision runs.
use nagent.Prelude.{◌≡◌, ◌⊎◌, refl, sym, subst, Option, none, some, List, inl, inr, arith}
use nagent.Prelude.Text.{Text}
use nagent.Llm.Permission.{DecisionPrefix, approve, approve_always, deny, parse_decision_prefix}
use nagent.Llm.Permission.Store.{PendingApproval, PermissionStore, take_pending}
use nagent.Llm.Permission.Store.Pending.{waiting, take_pending-waiting}
use nagent.Llm.ToolLoop.Types.{Message, Agent, Setup, Context, Registry, get_agent}
use nagent.Llm.Intercept.{
  last_user, Reply, Caller, approved_context, run_approved, run_known, answer_taken, run_pending,
  decided, with_decision, with_text, with_user, run_permission_intercept, as_str, take_if,
}

module _ {s : Setup} (c : Caller s) where
  -- the world is left, or it is that of an agent that ran on an approval of the session that waited
  abbrev pub IsApproved : s.World → PermissionStore s.sessions → s.World → Type 0
  IsApproved world store world' =
      (world' ≡ world)
      ⊎ ((sid : s.Uuid) × (registry : Registry s) × (id : Text) × (p : PendingApproval s.Json)
          × (agent : Agent s.World s.Json (Context s)) × (c.session_id ≡ some sid)
          × (c.agents ≡ some registry)
          × (waiting store c.now sid id ≡ some p)
          × (get_agent registry p.tool_name ≡ some agent)
          × (world' ≡ (agent.invoke world (approved_context c p.tool_name) p.args).0))

  abbrev Runs : Reply s → PendingApproval s.Json → s.World → Type 0
  Runs r p world' =
      (world' ≡ r.world)
      ⊎ ((registry : Registry s) × (agent : Agent s.World s.Json (Context s)) × (c.agents
            ≡ some registry)
          × (get_agent registry p.tool_name ≡ some agent)
          × (world' ≡ (agent.invoke r.world (approved_context c p.tool_name) p.args).0))

  run_known-Runs :
      (r : Reply s) (id : Text) (p : PendingApproval s.Json) (registry : Registry s)
      (o : Option (Agent s.World s.Json (Context s)))
      → c.agents ≡ some registry
      → get_agent registry p.tool_name ≡ o
      → Runs r p (run_known c r id p o).world
  unfolding run_known run_approved
  run_known-Runs r id p registry none registered unknown = inl refl
  run_known-Runs r id p registry (some agent) registered known =
      inr (registry, agent, registered, known, refl)

  -- an approval that has been taken runs its agent, if it is registered
  run_pending-Runs :
      (r : Reply s) (id : Text) (p : PendingApproval s.Json) (o : Option (Registry s))
      → c.agents ≡ o
      → Runs r p (run_pending c r id p o).world
  unfolding run_pending
  run_pending-Runs r id p none missing = inl refl
  run_pending-Runs r id p (some registry) registered =
      run_known-Runs r id p registry (get_agent registry p.tool_name) registered refl

  taken-IsApproved :
      (r : Reply s) (id : Text) (sid : s.Uuid) (store : PermissionStore s.sessions)
      (o : Option (PendingApproval s.Json))
      → c.session_id ≡ some sid
      → waiting r.permission_store c.now sid id ≡ o
      → IsApproved r.world r.permission_store (answer_taken c r id store o).world
  unfolding answer_taken
  taken-IsApproved r id sid store none here waits = inl refl
  taken-IsApproved r id sid store (some p) here waits =
      elim (run_pending-Runs (record r { permission_store = store }) id p c.agents refl) [
        | inl left ↦ inl left
        | inr (registry, agent, registered, known, runs) ↦
            inr (sid, registry, id, p, agent, here, registered, waits, known, runs)
      ]

  taken_waiting :
      (store : PermissionStore s.sessions) (sid : s.Uuid) (id : Text)
      → waiting store c.now sid id ≡ (take_pending store sid id c.now).1
  taken_waiting store sid id =
      sym (take_pending-waiting store sid id c.now c.now sid id (omega arith)).0

  approve-IsApproved :
      (r : Reply s) (id : Text) (o : Option s.Uuid)
      → c.session_id ≡ o
      → IsApproved r.world r.permission_store
          (answer_taken c r id
            (take_if c r.permission_store id o).0
            (take_if c r.permission_store id o).1).world
  unfolding take_if answer_taken
  approve-IsApproved r id none nowhere = inl refl
  approve-IsApproved r id (some sid) here =
      taken-IsApproved r id sid (take_pending r.permission_store sid id c.now).0
        (take_pending r.permission_store sid id c.now).1 here
        (taken_waiting r.permission_store sid id)

  decided-IsApproved :
      (r : Reply s) (d : DecisionPrefix)
      → IsApproved r.world r.permission_store (decided c r d).world
  unfolding decided
  decided-IsApproved r (approve id) = approve-IsApproved r id c.session_id refl
  decided-IsApproved r (approve_always name) = inl refl
  decided-IsApproved r (deny id) = inl refl

  abbrev IsReply : s.World → PermissionStore s.sessions → Option (Reply s) → Type 0
  IsReply world store none = Unit
  IsReply world store (some r) = IsApproved world store r.world

  with_decision-IsReply :
      (world : s.World) (store : PermissionStore s.sessions) (before after : List Message)
      (o : Option (DecisionPrefix × Text))
      → IsReply world store (with_decision c world store before after o)
  unfolding with_decision
  with_decision-IsReply world store before after none = tt
  with_decision-IsReply world store before after (some (d, remainder)) = decided-IsApproved _ d

  with_text-IsReply :
      (world : s.World) (store : PermissionStore s.sessions) (before after : List Message)
      (o : Option Text)
      → IsReply world store (with_text c world store before after o)
  unfolding with_text
  with_text-IsReply world store before after none = tt
  with_text-IsReply world store before after (some t) =
      with_decision-IsReply world store before after (parse_decision_prefix t)

  with_user-IsReply :
      (world : s.World) (store : PermissionStore s.sessions)
      (o : Option (List Message × Message × List Message))
      → IsReply world store (with_user c world store o)
  unfolding with_user
  with_user-IsReply world store none = tt
  with_user-IsReply world store (some (before, user, after)) =
      with_text-IsReply world store before after (as_str user.content)

  -- The intercept runs at most one agent, and only one that is registered under the name of an
  -- approval that waits, unexpired, in the session of the caller, with the arguments of that
  -- approval; otherwise it leaves the world as it is.
  pub run_permission_intercept-IsApproved :
      (messages : Option (List Message)) (world : s.World) (store : PermissionStore s.sessions)
      (r : Reply s)
      → run_permission_intercept c messages world store ≡ some r
      → IsApproved world store r.world
  unfolding run_permission_intercept
  run_permission_intercept-IsApproved none world store r h = ground (arith, h)
  run_permission_intercept-IsApproved (some msgs) world store r h =
      subst (IsReply world store) h (with_user-IsReply world store (last_user msgs))
