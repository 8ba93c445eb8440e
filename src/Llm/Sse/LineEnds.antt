-- ===== src/Llm/Sse/LineEnds.antt =====
-- What becomes of a stream whose lines end in a carriage return and a line feed.
use nagent.Prelude.{
  ℕ, ◌≡◌, refl, Bool, true, not, ◌==◌, none, List, [], ◌∷◌, ◌++◌, all, arith, and_true, ap, ◌∙◌,
}
use nagent.Prelude.Text.{Text}
use nagent.Llm.Sse.{split_event, next_event, at_end}
use nagent.Llm.Sse.Chunks.{streaming, total, next_event-total}
use nagent.Llm.Sse.Progress.{next_event-at_end}

-- lines, each with the end `\r\n`
abbrev pub crlf : List Text → Text
crlf [] = []
crlf (l ∷ ls) = l ++ b'\r' ∷ b'\n' ∷ crlf ls

abbrev pub is_line : Text → Bool
is_line l = all (λ c. not (c == b'\n')) l

-- no line feed comes first
opens : Text → Bool
opens [] = true
opens (c ∷ s) = not (c == b'\n')

split_event-other :
    (c : ℕ) (s : Text) → not (c == b'\n') ≡ true → split_event s ≡ none → split_event (c ∷ s) ≡ none
unfolding split_event
split_event-other c [] h e = refl
split_event-other c (d ∷ s) h e = ground (arith, h, e)

split_event-feed :
    (s : Text) → opens s ≡ true → split_event s ≡ none → split_event (b'\n' ∷ s) ≡ none
unfolding split_event opens
split_event-feed [] h e = refl
split_event-feed (d ∷ s) h e = ground (arith, h, e)

split_event-line :
    (l s : Text) → is_line l ≡ true → split_event s ≡ none → split_event (l ++ s) ≡ none
split_event-line [] s h e = e
split_event-line (c ∷ l) s h e =
    let (hc, hl) = and_true (not (c == b'\n')) (is_line l) h in
    split_event-other c (l ++ s) hc (split_event-line l s hl e)

opens-line : (l s : Text) → is_line l ≡ true → opens (l ++ b'\r' ∷ s) ≡ true
unfolding opens
opens-line [] s h = refl
opens-line (c ∷ l) s h = (and_true (not (c == b'\n')) (is_line l) h).0

opens-crlf : (ls : List Text) → all is_line ls ≡ true → opens (crlf ls) ≡ true
unfolding opens
opens-crlf [] h = refl
opens-crlf (l ∷ ls) h = opens-line l _ (and_true (is_line l) (all is_line ls) h).0

-- In lines that end in `\r\n` no blank line is found, empty lines among them included, so that no
-- event is split off: the first call of `next_event` waits for the end of the source.
pub split_event-crlf : (ls : List Text) → all is_line ls ≡ true → split_event (crlf ls) ≡ none
unfolding split_event
split_event-crlf [] h = refl
split_event-crlf (l ∷ ls) h =
    let (hl, hs) = and_true (is_line l) (all is_line ls) h in
    split_event-line l _ hl (
      split_event-other b'\r' (b'\n' ∷ crlf ls) refl
        (split_event-feed (crlf ls) (opens-crlf ls hs) (split_event-crlf ls hs)))

-- A source of text that ends its lines in `\r\n` yields no event before it ends: the first call of
-- `next_event` reads it to the end and takes all its text as one frame, if that is not blank.
pub next_event-crlf :
    (buf : Text) (ts ls : List Text)
    → total buf ts ≡ crlf ls
    → all is_line ls ≡ true
    → (next_event (streaming buf ts)).0 ≡ (at_end (crlf ls)).0
next_event-crlf buf ts ls text h =
    ap (λ r. r.0) (next_event-total buf ts).2
    ∙ ap (λ s. (next_event (streaming s [])).0) text
    ∙ ap (λ r. r.0) (next_event-at_end (crlf ls) (split_event-crlf ls h))
