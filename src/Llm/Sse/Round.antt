-- ===== src/Llm/Sse/Round.antt =====
-- crates/nagent-server/src/llm/sse.rs: `drain_upstream_round`, for a client that stays connected. The
-- JSON parser is another crate: `parse` gives what the loop reads of a payload, the `choices`, and
-- `none` for a payload that it skips.
use nagent.Prelude.{ℕ, zero, suc, ◌+◌, Option, none, some, List, [], ◌∷◌, ◌++◌, if◌then◌else◌}
use nagent.Prelude.Words.{unwrap_or}
use nagent.Prelude.Text.{Text, is_empty, utf8_len}
use nagent.Llm.Sse.{
  SseStream, NextEvent, event, ended, upstream_error, timed_out, next_event, forwarded, is_done,
}
use nagent.Llm.Sse.ToolCalls
use nagent.Llm.Sse.ToolCalls.{PendingToolCall, Delta, ToolCallAccumulator, apply_delta, into_sorted}

pub record Choice : Type 0 where
  pub content : Option Text
  pub reasoning : Option Text
  -- `none` where there is no array
  pub tool_calls : Option (List Delta)
  pub finish_reason : Option Text

pub record RoundOutcome : Type 0 where
  pub assistant_text : Text
  pub reasoning_chars : ℕ
  pub finish_reason : Option Text
  pub tool_calls : List PendingToolCall

-- the local variables of the loop
pub record Accumulated : Type 0 where
  pub acc : ToolCallAccumulator
  pub assistant_text : Text
  pub reasoning_chars : ℕ
  pub finish_reason : Option Text

abbrev pub nothing_yet : Accumulated
nothing_yet = record {
  acc = ToolCalls.new;
  assistant_text = [];
  reasoning_chars = 0;
  finish_reason = none;
}

unfoldable pub outcome : Accumulated → RoundOutcome
outcome a = record {
  assistant_text = a.assistant_text;
  reasoning_chars = a.reasoning_chars;
  finish_reason = a.finish_reason;
  tool_calls = into_sorted a.acc;
}

-- the first reason that is not empty stays
unfoldable pub keep_reason : Option Text → Option Text → Option Text
keep_reason (some fr) later = some fr
keep_reason none none = none
keep_reason none (some fr) = if is_empty fr then none else some fr

unfoldable pub apply_choice : Accumulated → Choice → Accumulated
apply_choice a c = record {
  acc = elim c.tool_calls [ some deltas ↦ apply_delta a.acc deltas | none ↦ a.acc ];
  assistant_text = a.assistant_text ++ unwrap_or c.content [];
  reasoning_chars = a.reasoning_chars + utf8_len (unwrap_or c.reasoning []);
  finish_reason = keep_reason a.finish_reason c.finish_reason;
}

unfoldable pub apply_choices : Accumulated → List Choice → Accumulated
apply_choices a [] = a
apply_choices a (c ∷ cs) = apply_choices (apply_choice a c) cs

-- the frames that a round sends, and how it ends
pub data Round : Type 0 where
  closed : List Text → RoundOutcome → Round
  failed : List Text → Round
  out_of_fuel : Round

unfoldable pub after_frame : Text → Round → Round
after_frame f (closed fs o) = closed (f ∷ fs) o
after_frame f (failed fs) = failed (f ∷ fs)
after_frame f out_of_fuel = out_of_fuel

-- the loop body up to the frames that follow
unfoldable pub round_step : NextEvent → Accumulated → Round → Round
round_step (event e) a rest =
    if is_done e then closed [] (outcome a) else after_frame (forwarded e) rest
round_step ended a rest = closed [] (outcome a)
round_step upstream_error a rest = failed []
round_step timed_out a rest = failed []

module _ (parse : Text → Option (List Choice)) where
  -- what an event adds to the local variables
  unfoldable pub absorb : NextEvent → Accumulated → Accumulated
  absorb (event e) a = elim (parse e.payload) [ none ↦ a | some choices ↦ apply_choices a choices ]
  absorb ended a = a
  absorb upstream_error a = a
  absorb timed_out a = a

  -- The loop on fuel; `Progress` shows how much is enough.
  unfoldable pub drain : ℕ → SseStream → Accumulated → Round
  drain zero s a = out_of_fuel
  drain (suc fuel) s a =
      round_step (next_event s).0 a (drain fuel (next_event s).1 (absorb (next_event s).0 a))
