-- ===== src/Llm/Sse/Tests.antt =====
-- Two events in three chunks.
use nagent.Prelude.{ℕ, some, ◌≡◌, refl, true, List, [], ◌∷◌, ◌++◌, arith, Option, none}
use nagent.Prelude.Text.{Text, codes, trim_start, strip_prefix}
use nagent.Llm.Sse.{
  SseEvent, next_event, at_end, parse_sse_frame, parse_lines, parse_line, split_lines, join_lines,
  trim_returns, drop_returns, forwarded,
}
use nagent.Llm.Sse.Round.{Choice, nothing_yet, drain}
use nagent.Llm.Sse.Chunks.{streaming}
use nagent.Llm.Sse.Progress.{drain_ends, has_ended}
use nagent.Llm.Sse.ToolCalls
use nagent.Llm.Sse.ToolCalls.{Delta, apply_delta}
use nagent.Llm.Sse.ToolCalls.Order.{IsAscending, arguments_at, fragments, arguments_at-apply_delta}
use nagent.Llm.Sse.LineEnds.{crlf, next_event-crlf}

abbrev chunks : List Text
chunks =
    codes "data: {}"
    ∷ (b'\n' ∷ b'\n' ∷ codes "event: x")
    ∷ (b'\n' ∷ codes "data: [DONE]" ++ b'\n' ∷ b'\n' ∷ [])
    ∷ []

-- payloads without choices
abbrev parse_nothing : Text → Option (List Choice)
parse_nothing payload = none

-- the decoder on bytes below 128
abbrev ascii : List ℕ → Text
ascii b = b

drain_ends_example : has_ended (drain parse_nothing 60 (streaming [] chunks) nothing_yet) ≡ true
drain_ends_example = drain_ends parse_nothing 60 (streaming [] chunks) nothing_yet (omega arith)

abbrev crlf_lines : List Text
crlf_lines = codes "data: {}" ∷ [] ∷ codes "data: {}" ∷ [] ∷ []

next_event-crlf_example :
    (next_event (streaming [] (crlf crlf_lines ∷ []))).0 ≡ (at_end (crlf crlf_lines)).0
next_event-crlf_example = next_event-crlf [] (crlf crlf_lines ∷ []) crlf_lines refl refl

-- an event of two data lines, and what is read from the frame that forwards it
abbrev two_lines : SseEvent
two_lines = parse_sse_frame (codes "data: a" ++ b'\n' ∷ codes "data: b")

two_lines_payload : two_lines.payload ≡ codes "a" ++ b'\n' ∷ codes "b"
unfolding parse_sse_frame parse_lines parse_line split_lines join_lines trim_returns drop_returns
    strip_prefix trim_start
two_lines_payload = refl

forwarded_loses_lines : (parse_sse_frame (forwarded two_lines)).payload ≡ codes "a"
unfolding parse_sse_frame parse_lines parse_line split_lines join_lines trim_returns drop_returns
    strip_prefix trim_start forwarded
forwarded_loses_lines = refl

-- two calls whose fragments alternate
abbrev fragment : ℕ → Text → Delta
fragment i arguments = record { index = some i; id = none; name = none; arguments = some arguments }

abbrev alternating : List Delta
alternating =
    fragment 1 (codes "{\"a\"")
    ∷ fragment 0 (codes "{")
    ∷ fragment 1 (codes ":1}")
    ∷ fragment 0 (codes "}")
    ∷ []

arguments_at-apply_delta_example :
    IsAscending none (apply_delta ToolCalls.new alternating).by_index
    × (arguments_at 1 (apply_delta ToolCalls.new alternating).by_index ≡ fragments 1 alternating)
arguments_at-apply_delta_example = arguments_at-apply_delta ToolCalls.new alternating 1 tt
