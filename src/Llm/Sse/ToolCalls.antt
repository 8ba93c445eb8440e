-- ===== src/Llm/Sse/ToolCalls.antt =====
-- crates/nagent-server/src/llm/sse.rs: `ToolCallAccumulator`. A delta is what `apply_delta` reads of
-- one element of the JSON array; the `BTreeMap` is the list of its entries in the order of the keys.
pub mod Order
use nagent.Prelude.{
  ℕ, ◌%◌, ◌^◌, Option, none, some, List, [], ◌∷◌, ◌++◌, map, ltb, ◌==◌, if◌then◌else◌,
}
use nagent.Prelude.Words.{unwrap_or}
use nagent.Prelude.Text.{Text}

pub record PendingToolCall : Type 0 where
  pub id : Text
  pub name : Option Text
  pub arguments : Text

pub record Delta : Type 0 where
  pub index : Option ℕ
  pub id : Option Text
  pub name : Option Text
  pub arguments : Option Text

pub record ToolCallAccumulator : Type 0 where
  pub by_index : List (ℕ × PendingToolCall)

abbrev pub new : ToolCallAccumulator
new = record { by_index = [] }

abbrev pub default_call : PendingToolCall
default_call = record { id = []; name = none; arguments = [] }

-- `as u32`
abbrev pub index_of : Delta → ℕ
index_of d = unwrap_or d.index 0 % 2 ^ 32

-- the loop body of `apply_delta` on the entry of its index
unfoldable pub merge : PendingToolCall → Delta → PendingToolCall
merge entry d = record {
  id = unwrap_or d.id entry.id;
  name = elim d.name [ some name ↦ some name | none ↦ entry.name ];
  arguments = entry.arguments ++ unwrap_or d.arguments [];
}

-- `entry(idx).or_default()`, and the write through it
unfoldable pub update : ℕ → Delta → List (ℕ × PendingToolCall) → List (ℕ × PendingToolCall)
update idx d [] = (idx, merge default_call d) ∷ []
update idx d ((i, call) ∷ entries) =
    let rest = update idx d entries in
    if i == idx
    then (i, merge call d) ∷ entries
    else if ltb idx i
    then (idx, merge default_call d) ∷ (i, call) ∷ entries
    else (i, call) ∷ rest

unfoldable pub apply_delta : ToolCallAccumulator → List Delta → ToolCallAccumulator
apply_delta acc [] = acc
apply_delta acc (d ∷ ds) = apply_delta (record { by_index = update (index_of d) d acc.by_index }) ds

unfoldable pub into_sorted : ToolCallAccumulator → List PendingToolCall
into_sorted acc = map (λ (e : ℕ × PendingToolCall). e.1) acc.by_index
