-- ===== src/Llm/Sse/Progress.antt =====
-- Each event takes text from the stream, so a round ends.
use nagent.Prelude.{
  ℕ, zero, suc, ◌<◌, ◌≡◌, refl, Bool, true, false, ◌==◌, ◌&&◌, none, some, List, [], ◌∷◌, ◌++◌,
  length, length-append, ◌+◌, Option, arith, inl, inr, Bool-cases, Option-cases,
}
use nagent.Prelude.Text.{Text, trim, trim_start, trim_end, is_empty}
use nagent.Llm.Sse.{
  Chunk, bytes, broken, idle, NextEvent, event, ended, upstream_error, timed_out, SseStream,
  split_event, at_end, next_from, next_event, forwarded, parse_sse_frame,
}
use nagent.Llm.Sse.Round.{
  Choice, Accumulated, absorb, Round, closed, failed, out_of_fuel, after_frame, round_step, drain,
}
use nagent.Llm.Sse.Chunks.{streaming}

length-split_event : (s raw rest : Text) → split_event s ≡ some (raw, rest) → length rest < length s
unfolding split_event
length-split_event [] raw rest h = ground (arith, h)
length-split_event (c ∷ []) raw rest h = ground (arith, h)
length-split_event (c ∷ d ∷ s) raw rest h = elim (Bool-cases (c == b'\n' && d == b'\n')) [
  | inl blank ↦ grind (arith, blank, h)
  | inr not_yet ↦ elim (Option-cases (split_event (d ∷ s))) [
    | inl missing ↦ grind (arith, not_yet, missing, h)
    | inr ((raw', rest'), found) ↦
        grind (arith, not_yet, found, length-split_event (d ∷ s) raw' rest' found, h)
  ]
]

-- the characters that a stream has still to give
abbrev pub size : Text → List Chunk → ℕ
size buf [] = length buf
size buf (bytes t ∷ src) = length t + size buf src
size buf (broken ∷ src) = size buf src
size buf (idle ∷ src) = size buf src

abbrev pub size_of : SseStream → ℕ
size_of s = size s.buf s.src

is_event : NextEvent → Bool
is_event (event _) = true
is_event ended = false
is_event upstream_error = false
is_event timed_out = false

no_text : ¬ (is_event (at_end []).0 ≡ true)
unfolding at_end is_event trim trim_end trim_start
no_text h = ground (arith, h)

length-at_end : (buf : Text) → is_event (at_end buf).0 ≡ true → size_of (at_end buf).1 < length buf
unfolding at_end is_event
length-at_end [] h = absurd (no_text h)
length-at_end (c ∷ s) h = elim (Bool-cases (is_empty (trim (c ∷ s)))) [
  | inl blank ↦ ground (arith, blank, h)
  | inr text ↦ ground (arith, text)
]

pub next_event-at_end :
    (buf : Text) → split_event buf ≡ none → next_event (streaming buf []) ≡ at_end buf
unfolding next_event next_from
next_event-at_end buf missing = rw (missing, next_from) refl

size-append : (buf t : Text) (src : List Chunk) → size (buf ++ t) src ≡ length t + size buf src
size-append buf t [] = omega (arith, length-append buf t)
size-append buf t (bytes u ∷ src) = omega (arith, size-append buf t src)
size-append buf t (broken ∷ src) = size-append buf t src
size-append buf t (idle ∷ src) = size-append buf t src

size-shrinks :
    (buf rest : Text) (src : List Chunk) → length rest < length buf → size rest src < size buf src
size-shrinks buf rest [] h = h
size-shrinks buf rest (bytes t ∷ src) h = omega (arith, size-shrinks buf rest src h)
size-shrinks buf rest (broken ∷ src) h = size-shrinks buf rest src h
size-shrinks buf rest (idle ∷ src) h = size-shrinks buf rest src h

abbrev Shrinks : Text → List Chunk → NextEvent × SseStream → Type 0
Shrinks buf src r = is_event r.0 ≡ true → size_of r.1 < size buf src

-- an event that the buffer holds
split-Shrinks :
    (buf raw rest : Text) (src : List Chunk)
    → split_event buf ≡ some (raw, rest)
    → Shrinks buf src (event (parse_sse_frame raw), record { buf = rest; src = src })
split-Shrinks buf raw rest src found is =
    size-shrinks buf rest src (length-split_event buf raw rest found)

size-next_from : (buf : Text) (src : List Chunk) → Shrinks buf src (next_from buf src)
unfolding next_from is_event
size-next_from buf [] = elim (Option-cases (split_event buf)) [
  | inl missing ↦ rw (missing, next_from) (length-at_end buf)
  | inr ((raw, rest), found) ↦ rw (found, next_from) (split-Shrinks buf raw rest [] found)
]
size-next_from buf (bytes t ∷ src) = elim (Option-cases (split_event buf)) [
  | inl missing ↦
      rw (missing, next_from)
        (λ is. omega (arith, size-next_from (buf ++ t) src is, size-append buf t src))
  | inr ((raw, rest), found) ↦
      rw (found, next_from) (split-Shrinks buf raw rest (bytes t ∷ src) found)
]
size-next_from buf (broken ∷ src) = elim (Option-cases (split_event buf)) [
  | inl missing ↦ rw (missing, next_from) (λ is. ground (arith, is))
  | inr ((raw, rest), found) ↦
      rw (found, next_from) (split-Shrinks buf raw rest (broken ∷ src) found)
]
size-next_from buf (idle ∷ src) = elim (Option-cases (split_event buf)) [
  | inl missing ↦ rw (missing, next_from) (λ is. ground (arith, is))
  | inr ((raw, rest), found) ↦ rw (found, next_from) (split-Shrinks buf raw rest (idle ∷ src) found)
]

unfoldable pub has_ended : Round → Bool
has_ended (closed _ _) = true
has_ended (failed _) = true
has_ended out_of_fuel = false

has_ended-after_frame : (f : Text) (r : Round) → has_ended (after_frame f r) ≡ has_ended r
unfolding has_ended after_frame
has_ended-after_frame f (closed fs o) = refl
has_ended-after_frame f (failed fs) = refl
has_ended-after_frame f out_of_fuel = refl

has_ended-round_step :
    (n : NextEvent) (acc : Accumulated) (r : Round)
    → (is_event n ≡ true → has_ended r ≡ true)
    → has_ended (round_step n acc r) ≡ true
unfolding has_ended round_step is_event
has_ended-round_step (event e) acc r h =
    ground (arith, h refl, has_ended-after_frame (forwarded e) r)
has_ended-round_step ended acc r h = refl
has_ended-round_step upstream_error acc r h = refl
has_ended-round_step timed_out acc r h = refl

module _ (parse : Text → Option (List Choice)) where
  -- One step more than the characters of the stream is fuel enough, also where the source fails or
  -- falls silent: a round ends.
  pub drain_ends :
      (fuel : ℕ) (s : SseStream) (acc : Accumulated)
      → size_of s < fuel
      → has_ended (drain parse fuel s acc) ≡ true
  unfolding drain next_event
  drain_ends zero s acc h = absurd (omega (arith, h))
  drain_ends (suc fuel) s acc h =
      let next = next_event s in
      has_ended-round_step next.0 acc (drain parse fuel next.1 (absorb parse next.0 acc)) (λ is.
        drain_ends fuel next.1 (absorb parse next.0 acc)
          (omega (arith, h, size-next_from s.buf s.src is)))
