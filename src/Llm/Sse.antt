-- ===== src/Llm/Sse.antt =====
-- crates/nagent-server/src/llm/sse.rs: the frames of a server-sent event stream. A stream is its
-- buffer and the chunks that its source has still to give, each decoded by `from_utf8_lossy`.
pub mod Chunks
pub mod ToolCalls
pub mod Round
pub mod Progress
pub mod LineEnds
mod Tests
use nagent.Prelude.{
  ℕ, zero, suc, Bool, true, false, Option, none, some, ◌==◌, ◌&&◌, ◌||◌, if◌then◌else◌, List, [],
  ◌∷◌, ◌++◌, map,
}
use nagent.Prelude.Text.{Text, codes, trim, trim_start, strip_prefix, is_empty, text_eq}
use mathlib.Core.List.{reverse}

-- `payload` is the field `data`
pub record SseEvent : Type 0 where
  pub name : Option Text
  pub payload : Text

-- `str::split('\n')`
unfoldable pub split_lines : Text → List Text
split_lines [] = [] ∷ []
split_lines (c ∷ s) =
    let rest = split_lines s in
    if c == b'\n' then [] ∷ rest else elim rest [ [] ↦ (c ∷ []) ∷ [] | l ∷ ls ↦ (c ∷ l) ∷ ls ]

-- `join("\n")`
unfoldable pub join_lines : List Text → Text
join_lines [] = []
join_lines (l ∷ []) = l
join_lines (l ∷ k ∷ ls) = l ++ b'\n' ∷ join_lines (k ∷ ls)

unfoldable pub drop_returns : Text → Text
drop_returns [] = []
drop_returns (c ∷ s) = let rest = drop_returns s in if c == b'\r' then rest else c ∷ s

-- `trim_end_matches('\r')`
unfoldable pub trim_returns : Text → Text
trim_returns s = reverse (drop_returns (reverse s))

abbrev pub starts_comment : Text → Bool
starts_comment [] = false
starts_comment (c ∷ s) = c == b':'

-- the loop body of `parse_sse_frame`, on the name and the data lines so far
unfoldable pub parse_line : Option Text × List Text → Text → Option Text × List Text
parse_line (name, data_lines) raw =
    let line = trim_returns raw in
    if is_empty line || starts_comment line
    then (name, data_lines)
    else elim (strip_prefix (codes "event:") line) [
      | some rest ↦ (some (trim rest), data_lines)
      | none ↦ elim (strip_prefix (codes "data:") line) [
        | some rest ↦ (name, data_lines ++ trim_start rest ∷ [])
        | none ↦ (name, data_lines)
      ]
    ]

unfoldable pub parse_lines : Option Text × List Text → List Text → Option Text × List Text
parse_lines acc [] = acc
parse_lines acc (l ∷ ls) = parse_lines (parse_line acc l) ls

unfoldable pub parse_sse_frame : Text → SseEvent
parse_sse_frame raw =
    let (name, data_lines) = parse_lines (none, []) (split_lines raw) in
    record { name = name; payload = join_lines data_lines }

-- the text before the first blank line, and the text after it
unfoldable pub split_event : Text → Option (Text × Text)
split_event [] = none
split_event (c ∷ []) = none
split_event (c ∷ d ∷ s) =
    let later = split_event (d ∷ s) in
    if c == b'\n' && d == b'\n'
    then some ([], s)
    else elim later [ none ↦ none | some (raw, rest) ↦ some (c ∷ raw, rest) ]

-- what the source gives within the timeout, or that it gives nothing in time; a chunk of bytes is the
-- text that `from_utf8_lossy` makes of the bytes of this chunk alone
pub data Chunk : Type 0 where
  bytes : Text → Chunk
  broken idle : Chunk

pub data NextEvent : Type 0 where
  event : SseEvent → NextEvent
  ended upstream_error timed_out : NextEvent

pub record SseStream : Type 0 where
  pub buf : Text
  pub src : List Chunk

-- a source that gives these bytes, `lossy` being `from_utf8_lossy`, which each chunk meets on its own:
-- a character that is cut in two is two texts for it
unfoldable pub stream_of : (List ℕ → Text) → List (List ℕ) → SseStream
stream_of lossy raw = record { buf = []; src = map bytes (map lossy raw) }

-- `next_event` when the buffer holds no whole event
unfoldable pub at_end : Text → NextEvent × SseStream
at_end buf =
    if is_empty (trim buf)
    then (ended, record { buf = buf; src = [] })
    else (event (parse_sse_frame buf), record { buf = []; src = [] })

unfoldable pub next_from : Text → List Chunk → NextEvent × SseStream
unfolding at_end
next_from buf [] = elim (split_event buf) [
  | some (raw, rest) ↦ (event (parse_sse_frame raw), record { buf = rest; src = [] })
  | none ↦ at_end buf
]
next_from buf (bytes t ∷ src) = elim (split_event buf) [
  | some (raw, rest) ↦ (event (parse_sse_frame raw), record { buf = rest; src = bytes t ∷ src })
  | none ↦ next_from (buf ++ t) src
]
next_from buf (broken ∷ src) = elim (split_event buf) [
  | some (raw, rest) ↦ (event (parse_sse_frame raw), record { buf = rest; src = broken ∷ src })
  | none ↦ (upstream_error, record { buf = buf; src = src })
]
next_from buf (idle ∷ src) = elim (split_event buf) [
  | some (raw, rest) ↦ (event (parse_sse_frame raw), record { buf = rest; src = idle ∷ src })
  | none ↦ (timed_out, record { buf = buf; src = src })
]

unfoldable pub next_event : SseStream → NextEvent × SseStream
unfolding next_from
next_event s = next_from s.buf s.src

-- the frame that `drain_upstream_round` forwards for an event
unfoldable pub forwarded : SseEvent → Text
forwarded e = elim e.name [
  | some name ↦ codes "event: " ++ (name ++ b'\n' ∷ (codes "data: " ++ (e.payload ++ codes "\n\n")))
  | none ↦ codes "data: " ++ (e.payload ++ codes "\n\n")
]

-- the sentinel that ends a round and is not forwarded
abbrev pub is_done : SseEvent → Bool
is_done e = text_eq (trim e.payload) (codes "[DONE]")
