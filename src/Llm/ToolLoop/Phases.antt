-- ===== src/Llm/ToolLoop/Phases.antt =====
-- The order of the frames that a client of crates/nagent-server/src/llm/tool_loop.rs sees: each
-- announced call is answered before the next frame, and a turn has one ending.
use nagent.Prelude.{◌≡◌, refl, List, [], ◌∷◌, ◌++◌, map, if◌then◌else◌}
use nagent.Prelude.Text.{Text, text_eq}
use nagent.Llm.ToolLoop.Types.{
  Frame, upstream, tool_call, tool_result, needs_approval, round_paused, error_event, done, broken,
}

-- where a client is in the frames of a turn
pub data Phase : Type 0 where
  running : Phase
  calling : Text → Phase
  approving : Text → Phase
  paused : Phase
  failing : Phase
  finished : Phase
  wrong : Phase

abbrev pub expect : Text → Text → Phase → Phase
expect id id' ph = if text_eq id id' then ph else wrong

module _ {J : Type 0} where
  -- one frame; an answer has the id of its call
  unfoldable pub advance : Phase → Frame J → Phase
  advance running (upstream f) = running
  advance running (tool_call tc name round) = calling tc.id
  advance running (tool_result id name ok payload) = running
  advance running (needs_approval id name message args) = wrong
  advance running (round_paused id name reason) = wrong
  advance running (error_event e) = failing
  advance running done = finished
  advance running (broken b) = finished
  advance (calling id) (tool_result id' name ok payload) = expect id id' running
  advance (calling id) (needs_approval id' name message args) = expect id id' (approving id)
  advance (approving id) (round_paused id' name reason) = expect id id' paused
  advance paused done = finished
  advance failing done = finished
  advance _ _ = wrong

  unfoldable pub phase : Phase → List (Frame J) → Phase
  phase ph [] = ph
  phase ph (f ∷ fs) = phase (advance ph f) fs

  pub phase-append :
      (ph : Phase) (fs gs : List (Frame J)) → phase ph (fs ++ gs) ≡ phase (phase ph fs) gs
  unfolding phase
  phase-append ph [] gs = refl
  phase-append ph (f ∷ fs) gs = phase-append (advance ph f) fs gs

-- frames that are only forwarded
pub phase-upstream :
    (J : Type 0) (fs : List Text)
    → let gs : List (Frame J) = map upstream fs in phase running gs ≡ running
unfolding phase advance
phase-upstream J [] = refl
phase-upstream J (f ∷ fs) = phase-upstream J fs
