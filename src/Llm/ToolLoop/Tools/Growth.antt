-- ===== src/Llm/ToolLoop/Tools/Growth.antt =====
-- How often a name is offered.
use nagent.Prelude.{
  ℕ, suc, ◌≤◌, ◌≡◌, refl, sym, ap, ◌∙◌, Bool, true, false, ◌||◌, Option, none, some, List, [], ◌∷◌,
  ◌++◌, count, count-append, if◌then◌else◌, arith, Bool-cases, Option-cases, inl, inr,
}
use mathlib.Core.Option.{some-injective}
use nagent.Prelude.Text.{Text, text_eq, text_eq_sound}
use nagent.Collections.{DashMap, Present}
use nagent.Llm.DiscoveredTools.{DiscoveredTools}
use nagent.Llm.DiscoveredTools
use nagent.Llm.ToolLoop.Types.{Tool, Body, Agent, get_agent}
use nagent.Llm.ToolLoop.Tools.{
  is_text, mentions, search_tools_name, selected_names, session_names, history_tool_call_names,
  latest_user_message_text, tool_of, add_unseen, start_tools, offers, fold_history,
  build_tools_for_round, rebuild_tools_for_next_round,
}

abbrev pub offered : {J : Type 0} → Text → List (Tool J) → ℕ
offered {J} name = count (λ (t : Tool J). is_text t.name name)

abbrev is_some : {A : Type 0} → Option A → Bool
is_some none = false
is_some (some _) = true

abbrev Bounded : {J : Type 0} → Text → List Text × List (Tool J) → Type 0
Bounded name acc = offered name acc.1 ≤ (if mentions acc.0 name then 1 else 0)

at_most_one :
    {J : Type 0} (name : Text) (acc : List Text × List (Tool J))
    → Bounded name acc
    → offered name acc.1 ≤ 1
at_most_one name acc h = grind (arith, h)

mentions-same :
    (seen : List Text) (n name : Text)
    → text_eq n name ≡ true
    → mentions seen n ≡ mentions seen name
mentions-same seen n name same = ap (mentions seen) (text_eq_sound n name same)

module _ {W J C : Type 0} where
  get_agent-name :
      (agents : List (Agent W J C)) (name : Text) (a : Agent W J C)
      → get_agent agents name ≡ some a
      → text_eq a.name name ≡ true
  unfolding get_agent
  get_agent-name [] name a h = ground (arith, h)
  get_agent-name (b ∷ agents) name a h = elim (Bool-cases (text_eq b.name name)) [
    | inl same ↦
        let e = some-injective b a (rw (same, get_agent) at h) in
        ap (λ x. text_eq x.name name) (sym e) ∙ same
    | inr other ↦ get_agent-name agents name a (rw (other, get_agent) at h)
  ]

  module _ (name : Text) where
    abbrev add_one :
        List (Agent W J C) → List Text × List (Tool J) → Text → List Text × List (Tool J)
    add_one agents (seen, out) n =
        if mentions seen n
        then (seen, out)
        else (n ∷ seen, elim (get_agent agents n) [ none ↦ out | some a ↦ out ++ tool_of a ∷ [] ])

    add_one-Bounded :
        (agents : List (Agent W J C)) (seen : List Text) (out : List (Tool J)) (n : Text)
        → Bounded name (seen, out)
        → Bounded name (add_one agents (seen, out) n)
    unfolding mentions
    add_one-Bounded agents seen out n h = elim (Bool-cases (mentions seen n)) [
      | inl there ↦ rw there h
      | inr new ↦ elim (Option-cases (get_agent agents n)) [
        | inl unknown ↦ rw (new, unknown) (grind (arith, h))
        | inr (a, found) ↦
            let same = text_eq_sound a.name n (get_agent-name agents n a found) in
            rw (new, found) (tool_added a same new)
      ]
    ]
      where
        tool_added :
            (a : Agent W J C)
            → a.name ≡ n
            → mentions seen n ≡ false
            → offered name (out ++ tool_of a ∷ []) ≤ (if mentions (n ∷ seen) name then 1 else 0)
        tool_added a same new =
            let sum = count-append (λ (t : Tool J). is_text t.name name) out (tool_of a ∷ []) in
            let e = ap (λ x. text_eq x name) same in
            elim (Bool-cases (text_eq n name)) [
              | inl it ↦ grind (arith, h, sum, e, it, new, mentions-same seen n name it)
              | inr other ↦ grind (arith, h, sum, e, other)
            ]

    add_unseen-Bounded :
        (agents : List (Agent W J C)) (names : List Text) (acc : List Text × List (Tool J))
        → Bounded name acc
        → Bounded name (add_unseen agents acc names)
    unfolding add_unseen
    add_unseen-Bounded agents [] acc h = h
    add_unseen-Bounded agents (n ∷ names) (seen, out) h =
        add_unseen-Bounded agents names (add_one agents (seen, out) n)
          (add_one-Bounded agents seen out n h)

    start_tools-Bounded : (agents : List (Agent W J C)) → Bounded name (start_tools agents)
    unfolding start_tools mentions
    start_tools-Bounded agents = elim (Option-cases (get_agent agents search_tools_name)) [
      | inl missing ↦ rw (missing, start_tools) (omega arith)
      | inr (a, found) ↦ rw (found, start_tools) (ground arith)
    ]

    -- what is offered stays offered
    extended-le :
        (out : List (Tool J)) (a : Option (Agent W J C))
        → offered name out ≤ offered name (elim a [ none ↦ out | some b ↦ out ++ tool_of b ∷ [] ])
    extended-le out none = omega arith
    extended-le out (some b) =
        omega (arith, count-append (λ (t : Tool J). is_text t.name name) out (tool_of b ∷ []))

    add_one-le :
        (agents : List (Agent W J C)) (seen : List Text) (out : List (Tool J)) (n : Text)
        → offered name out ≤ offered name (add_one agents (seen, out) n).1
    add_one-le agents seen out n = elim (Bool-cases (mentions seen n)) [
      | inl there ↦ rw there (omega arith)
      | inr new ↦ rw new (extended-le out (get_agent agents n))
    ]

    add_unseen-le :
        (agents : List (Agent W J C)) (names : List Text) (acc : List Text × List (Tool J))
        → offered name acc.1 ≤ offered name (add_unseen agents acc names).1
    unfolding add_unseen
    add_unseen-le agents [] acc = omega arith
    add_unseen-le agents (n ∷ names) (seen, out) = omega (
      arith,
      add_one-le agents seen out n,
      add_unseen-le agents names (add_one agents (seen, out) n),
    )

    fold_history-le :
        (agents : Option (List (Agent W J C))) (names : List Text) (rebuilt : List (Tool J))
        → offered name rebuilt ≤ offered name (fold_history agents rebuilt names)
    unfolding fold_history
    fold_history-le agents [] rebuilt = omega arith
    fold_history-le none (n ∷ names) rebuilt = fold_history-le none names rebuilt
    fold_history-le (some agents) (n ∷ names) rebuilt = elim (Bool-cases (offers rebuilt n)) [
      | inl there ↦ rw there (fold_history-le (some agents) names rebuilt)
      | inr new ↦ rw new (
          omega (
            arith,
            extended-le rebuilt (get_agent agents n),
            fold_history-le (some agents) names
                (elim (get_agent agents n) [ none ↦ rebuilt | some b ↦ rebuilt ++ tool_of b ∷ [] ]),
          ))
    ]

  offered-start_tools :
      (agents : List (Agent W J C)) (a : Agent W J C)
      → get_agent agents search_tools_name ≡ some a
      → offered search_tools_name (start_tools agents).1 ≡ 1
  unfolding start_tools
  offered-start_tools agents a found =
      let named = get_agent-name agents search_tools_name a found in
      rw (found, start_tools) (rw named refl)

module _ {W J C Uuid : Type 0} {names : DashMap Text Present} {d : DashMap Uuid names.Map} where
  -- `build_tools_for_round` offers no name twice; the tools of the client, which the request adds, are
  -- not among these.
  pub offered-build_tools_for_round :
      (name : Text) (agents : Option (List (Agent W J C))) (router : Option (Text → ℕ → List Text))
      (discovered : DiscoveredTools names d) (chat_session_id : Option Uuid)
      (latest_user_msg : Text)
      → offered name
          (build_tools_for_round agents router discovered chat_session_id latest_user_msg)
        ≤ 1
  unfolding build_tools_for_round
  offered-build_tools_for_round name none router discovered sid msg = omega arith
  offered-build_tools_for_round name (some agents) router discovered sid msg =
      let selected = add_unseen agents (start_tools agents) (selected_names router msg) in
      let routed =
        add_unseen-Bounded name agents (selected_names router msg) (start_tools agents)
          (start_tools-Bounded name agents) in
      let used = session_names discovered sid in
      at_most_one name (add_unseen agents selected used)
        (add_unseen-Bounded name agents used selected routed)

  -- `search_tools` is among the tools of a round
  search_tools-build_tools_for_round :
      (agents : List (Agent W J C)) (a : Agent W J C) (router : Option (Text → ℕ → List Text))
      (discovered : DiscoveredTools names d) (chat_session_id : Option Uuid) (msg : Text)
      → get_agent agents search_tools_name ≡ some a
      → 1
        ≤ offered search_tools_name
            (build_tools_for_round (some agents) router discovered chat_session_id msg)
  unfolding build_tools_for_round
  search_tools-build_tools_for_round agents a router discovered sid msg found =
      let start = start_tools agents in
      let selected = add_unseen agents start (selected_names router msg) in
      omega (
        arith,
        offered-start_tools agents a found,
        add_unseen-le search_tools_name agents (selected_names router msg) start,
        add_unseen-le search_tools_name agents (session_names discovered sid) selected,
      )

  grows :
      (agents : List (Agent W J C)) (a : Agent W J C) (router : Option (Text → ℕ → List Text))
      (discovered : DiscoveredTools names d) (chat_session_id : Option Uuid) (msg : Text)
      (history : List Text) (old : List (Tool J))
      → get_agent agents search_tools_name ≡ some a
      → suc (offered search_tools_name old)
        ≤ offered search_tools_name (
            fold_history
              (some agents)
              (build_tools_for_round (some agents) router discovered chat_session_id msg)
              history
            ++ old)
  grows agents a router discovered sid msg history old found =
      let built = build_tools_for_round (some agents) router discovered sid msg in
      omega (
        arith,
        search_tools-build_tools_for_round agents a router discovered sid msg found,
        fold_history-le search_tools_name (some agents) history built,
        count-append (λ (t : Tool J). is_text t.name search_tools_name)
            (fold_history (some agents) built history) old,
      )

  -- Where `search_tools` is registered, and there is a router or a store of discovered tools, the
  -- tools of the next request offer it at least once more than those of the request before.
  pub offered-rebuild_tools_for_next_round :
      (body : Body J) (agents : List (Agent W J C)) (a : Agent W J C)
      (router : Option (Text → ℕ → List Text)) (discovered : Option (DiscoveredTools names d))
      (chat_session_id : Option Uuid)
      → get_agent agents search_tools_name ≡ some a
      → (is_some router || is_some discovered) ≡ true
      → suc (offered search_tools_name body.tools)
        ≤ offered search_tools_name
            (rebuild_tools_for_next_round body
              (some agents)
              router
              discovered
              chat_session_id).tools
  unfolding rebuild_tools_for_next_round
  offered-rebuild_tools_for_next_round body agents a none none sid found either =
      ground (arith, either)
  offered-rebuild_tools_for_next_round body agents a (some r) none sid found either =
      grows agents a (some r) DiscoveredTools.new sid (latest_user_message_text body.messages)
        (history_tool_call_names body.messages) body.tools found
  offered-rebuild_tools_for_next_round body agents a none (some store) sid found either =
      grows agents a none store sid (latest_user_message_text body.messages)
        (history_tool_call_names body.messages) body.tools found
  offered-rebuild_tools_for_next_round body agents a (some r) (some store) sid found either =
      grows agents a (some r) store sid (latest_user_message_text body.messages)
        (history_tool_call_names body.messages) body.tools found
