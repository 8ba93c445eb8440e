-- ===== src/Llm/Sse/Chunks.antt =====
-- How the source cuts its text into chunks does not matter.
use nagent.Prelude.{
  ◌≡◌, refl, ap, ◌==◌, ◌&&◌, some, List, [], ◌∷◌, ◌++◌, map, arith, inl, inr, Bool-cases,
  Option-cases,
}
use nagent.Prelude.Text.{Text}
use nagent.Llm.Sse.{bytes, SseStream, split_event, at_end, next_from, next_event}

-- A blank line that is there stays where it is when text is added.
pub split_event-append :
    (s t raw rest : Text)
    → split_event s ≡ some (raw, rest)
    → split_event (s ++ t) ≡ some (raw, rest ++ t)
unfolding split_event
split_event-append [] t raw rest h = ground (arith, h)
split_event-append (c ∷ []) t raw rest h = ground (arith, h)
split_event-append (c ∷ d ∷ s) t raw rest h = elim (Bool-cases (c == b'\n' && d == b'\n')) [
  | inl blank ↦ grind (arith, blank, h)
  | inr not_yet ↦ elim (Option-cases (split_event (d ∷ s))) [
    | inl missing ↦ grind (arith, not_yet, missing, h)
    | inr ((raw', rest'), found) ↦
        grind (arith, not_yet, found, split_event-append (d ∷ s) t raw' rest' found, h)
  ]
]

-- a stream that has text and chunks of text to come
abbrev pub streaming : Text → List Text → SseStream
streaming buf ts = record { buf = buf; src = map bytes ts }

-- the text that the buffer will have held
abbrev pub total : Text → List Text → Text
total buf [] = buf
total buf (t ∷ ts) = total (buf ++ t) ts

split_event-total :
    (buf : Text) (ts : List Text) (raw rest : Text)
    → split_event buf ≡ some (raw, rest)
    → split_event (total buf ts) ≡ some (raw, total rest ts)
split_event-total buf [] raw rest h = h
split_event-total buf (t ∷ ts) raw rest h =
    split_event-total (buf ++ t) ts raw (rest ++ t) (split_event-append buf t raw rest h)

-- a source that has ended stays so
pub src-next_event : (buf : Text) → (next_event (streaming buf [])).1.src ≡ []
unfolding next_event next_from at_end
src-next_event buf = ground arith

-- `next_event` gives the event that it would give if the whole text were in the buffer, and what it
-- leaves to be read is, in buffer and chunks together, what it would leave in that case.
pub next_event-total :
    (buf : Text) (ts : List Text)
    → (buf' : Text) × (ts' : List Text) × (next_event (streaming buf ts)
        ≡ ((next_event (streaming (total buf ts) [])).0, streaming buf' ts'))
      × ((next_event (streaming (total buf ts) [])).1 ≡ streaming (total buf' ts') [])
unfolding next_event next_from
next_event-total buf [] =
    let r = next_event (streaming buf []) in
    let done = src-next_event buf in
    (
      r.1.buf,
      [],
      ap (λ x. (r.0, record { buf = r.1.buf; src = x })) done,
      ap (λ x. record { buf = r.1.buf; src = x }) done,
    )
next_event-total buf (t ∷ ts) = elim (Option-cases (split_event buf)) [
  | inl missing ↦
      let (buf', ts', gives, leaves) = next_event-total (buf ++ t) ts in
      (buf', ts', rw (missing, next_from) gives, leaves)
  | inr ((raw, rest), found) ↦
      let whole = split_event-total buf (t ∷ ts) raw rest found in
      (rest, t ∷ ts, rw (found, whole, next_from) refl, rw (whole, next_from) refl)
]
