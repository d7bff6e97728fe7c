-- ===== src/Orchestrator/SharedState.antt =====
-- The shared state of a run: app/orchestrator/shared_state.py.
-- Assigning below a key that is missing raises `KeyError`, and below a value that is no dict
-- `TypeError`; `append` on a value that is no list raises `AttributeError`.
use general_agent_framework.Prelude.{String, none, some, List}
use general_agent_framework.Json.{
  Value, Fields, arr, obj, nil, cons, find, assign, snoc, items, obj_or_empty, arr_or_empty,
}
use general_agent_framework.Outcome.{
  Outcome, returned, raised, ◌>>=◌, key_error, repr_key, type_error, attribute_error,
}

abbrev with_outputs : Fields → Fields
with_outputs d = assign "agent_outputs" (obj (obj_or_empty (find "agent_outputs" d))) d

abbrev with_results : Fields → Fields
with_results d = assign "tool_results" (obj (obj_or_empty (find "tool_results" d))) d

abbrev with_last : Fields → Fields
with_last d = assign "last_tool_results" (arr (arr_or_empty (find "last_tool_results" d))) d

abbrev with_review : Fields → Fields
with_review d = assign "review_context" (obj (obj_or_empty (find "review_context" d))) d

unfoldable pub normalize_shared_state : Fields → Fields
normalize_shared_state shared_state =
    with_review (with_last (with_results (with_outputs shared_state)))

-- `shared_state[key][k] = v`
put_below : String → String → Value → Fields → Outcome Fields
put_below key k v d = elim (find key d) [
  | none ↦ raised (record { class = key_error; text = repr_key key })
  | some (obj e) ↦ returned (assign key (obj (assign k v e)) d)
  | some _ ↦ raised (record { class = type_error; text = "item assignment" })
]

unfoldable pub record_agent_output : Fields → String → Fields → Outcome Fields
unfolding put_below
record_agent_output shared_state agent_id output =
    put_below "agent_outputs" agent_id (obj output) shared_state

-- `.setdefault(agent_id, []).append(payload)` on the dict `e`
append_below : String → Fields → Value → Outcome Fields
append_below agent_id e payload = elim (find agent_id e) [
  | none ↦ returned (assign agent_id (arr (cons payload nil)) e)
  | some (arr xs) ↦ returned (assign agent_id (arr (snoc xs payload)) e)
  | some _ ↦ raised (record { class = attribute_error; text = "append" })
]

unfoldable pub append_tool_result : Fields → String → Value → Outcome Fields
unfolding append_below
append_tool_result shared_state agent_id payload = elim (find "tool_results" shared_state) [
  | none ↦ raised (record { class = key_error; text = repr_key "tool_results" })
  | some (obj e) ↦ append_below agent_id e payload >>= λ e'.
      returned (assign "tool_results" (obj e') shared_state)
  | some _ ↦ raised (record { class = attribute_error; text = "setdefault" })
]

unfoldable pub set_last_tool_results : Fields → List Value → Fields
set_last_tool_results shared_state results =
    assign "last_tool_results" (arr (items results)) shared_state

unfoldable pub set_review_context : Fields → Fields → Fields
set_review_context shared_state review_context =
    assign "review_context" (obj review_context) shared_state
