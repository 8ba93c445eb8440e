-- ===== src/Llm/Sse/ToolCalls/Order.antt =====
-- The fragments of a tool call are joined by their index, in the order of their arrival.
use nagent.Prelude.{
  ℕ, ◌<◌, ◌≡◌, refl, ◌∙◌, sym, Option, none, some, List, [], ◌∷◌, ◌++◌, ◌==◌, if◌then◌else◌, arith,
  Bool-cases, inl, inr,
}
use mathlib.Core.List.{append_assoc, append-nil}
use nagent.Prelude.Words.{unwrap_or}
use nagent.Prelude.Text.{Text}
use nagent.Llm.Sse.ToolCalls.{
  PendingToolCall, Delta, ToolCallAccumulator, index_of, merge, update, apply_delta,
}

-- the keys ascend strictly, from above `low`
abbrev pub IsAscending : Option ℕ → List (ℕ × PendingToolCall) → Type 0
IsAscending low [] = Unit
IsAscending none ((i, c) ∷ es) = IsAscending (some i) es
IsAscending (some l) ((i, c) ∷ es) = (l < i) × IsAscending (some i) es

-- the arguments gathered under an index
abbrev pub arguments_at : ℕ → List (ℕ × PendingToolCall) → Text
arguments_at k [] = []
arguments_at k ((i, c) ∷ es) = let rest = arguments_at k es in if i == k then c.arguments else rest

-- the fragments that a list of deltas carries for an index
abbrev pub fragments : ℕ → List Delta → Text
fragments k [] = []
fragments k (d ∷ ds) =
    let rest = fragments k ds in if index_of d == k then unwrap_or d.arguments [] ++ rest else rest

update-IsAscending_above :
    (l idx : ℕ) (d : Delta) (es : List (ℕ × PendingToolCall))
    → l < idx
    → IsAscending (some l) es
    → IsAscending (some l) (update idx d es)
unfolding update
update-IsAscending_above l idx d [] h a = (h, tt)
update-IsAscending_above l idx d ((i, c) ∷ es) h a =
    ground (arith, update-IsAscending_above i idx d es)

update-IsAscending :
    (idx : ℕ) (d : Delta) (es : List (ℕ × PendingToolCall))
    → IsAscending none es
    → IsAscending none (update idx d es)
unfolding update
update-IsAscending idx d [] a = tt
update-IsAscending idx d ((i, c) ∷ es) a = ground (arith, update-IsAscending_above i idx d es)

arguments_at-absent :
    (l k : ℕ) (es : List (ℕ × PendingToolCall))
    → k < l
    → IsAscending (some l) es
    → arguments_at k es ≡ []
arguments_at-absent l k [] h a = refl
arguments_at-absent l k ((i, c) ∷ es) h a = ground (arith, arguments_at-absent i k es)

arguments_at-update :
    (k idx : ℕ) (d : Delta) (low : Option ℕ) (es : List (ℕ × PendingToolCall))
    → IsAscending low es
    → arguments_at k (update idx d es)
      ≡ (if idx == k then arguments_at k es ++ unwrap_or d.arguments [] else arguments_at k es)
unfolding update merge
arguments_at-update k idx d low [] a = ground arith
arguments_at-update k idx d none ((i, c) ∷ es) a =
    ground (arith, arguments_at-update k idx d (some i) es a, arguments_at-absent i k es)
arguments_at-update k idx d (some l) ((i, c) ∷ es) a =
    ground (arith, arguments_at-update k idx d (some i) es a.1, arguments_at-absent i k es)

-- After any deltas the calls stand in the strict order of their indices, and the arguments of each
-- index are those it had before, followed by its fragments in the order of their arrival.
pub arguments_at-apply_delta :
    (acc : ToolCallAccumulator) (ds : List Delta) (k : ℕ)
    → IsAscending none acc.by_index
    → IsAscending none (apply_delta acc ds).by_index
      × (arguments_at k (apply_delta acc ds).by_index
          ≡ arguments_at k acc.by_index ++ fragments k ds)
unfolding apply_delta
arguments_at-apply_delta acc [] k a = (a, sym (append-nil _))
arguments_at-apply_delta acc (d ∷ ds) k a =
    let acc' : ToolCallAccumulator = record { by_index = update (index_of d) d acc.by_index } in
    let (up, args) =
      arguments_at-apply_delta acc' ds k (update-IsAscending (index_of d) d acc.by_index a) in
    let upd = arguments_at-update k (index_of d) d none acc.by_index a in
    (
      up,
      args ∙ elim (Bool-cases (index_of d == k)) [
        | inl same ↦
            rw (upd, same)
              (append_assoc (arguments_at k acc.by_index) (unwrap_or d.arguments [])
                (fragments k ds))
        | inr other ↦ rw (upd, other) refl
      ],
    )
