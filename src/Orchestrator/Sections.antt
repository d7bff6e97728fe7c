-- ===== src/Orchestrator/Sections.antt =====
-- The sections of the shared state: `normalize_shared_state` of app/orchestrator/shared_state.py.
use general_agent_framework.Prelude.{String, ◌≡◌, some, arith}
use general_agent_framework.Json.{
  Value, Items, Fields, arr, obj, end, field, find, assign, find-assign, obj_or_empty, arr_or_empty,
}
use general_agent_framework.Orchestrator.SharedState.{normalize_shared_state}

-- The four sections are there, each of its kind.
pub record HasSections (d : Fields) : Type 0 where
  pub outputs : Fields
  pub results : Fields
  pub last : Items
  pub review : Fields
  pub agent_outputs : find "agent_outputs" d ≡ some (obj outputs)
  pub tool_results : find "tool_results" d ≡ some (obj results)
  pub last_tool_results : find "last_tool_results" d ≡ some (arr last)
  pub review_context : find "review_context" d ≡ some (obj review)

assign-find : (k : String) (v : Value) (d : Fields) → find k d ≡ some v → assign k v d ≡ d
unfolding find assign
assign-find k v end h = ground arith
assign-find k v (field j w d) h = ground (arith, assign-find k v d)

-- Normalising leaves a state with its sections as it is.
normal_form : (d : Fields) → HasSections d → normalize_shared_state d ≡ d
unfolding normalize_shared_state
normal_form d s =
    rw
      (
        s.agent_outputs,
        assign-find "agent_outputs" (obj s.outputs) d s.agent_outputs,
        s.tool_results,
        assign-find "tool_results" (obj s.results) d s.tool_results,
        s.last_tool_results,
        assign-find "last_tool_results" (arr s.last) d s.last_tool_results,
        s.review_context,
      )
      (assign-find "review_context" (obj s.review) d s.review_context)

normalize-HasSections : (d : Fields) → HasSections (normalize_shared_state d)
unfolding normalize_shared_state
normalize-HasSections d = record {
  outputs = obj_or_empty (find "agent_outputs" d);
  results = obj_or_empty (find "tool_results" d);
  last = arr_or_empty (find "last_tool_results" d);
  review = obj_or_empty (find "review_context" d);
  agent_outputs = simp find-assign;
  tool_results = simp find-assign;
  last_tool_results = simp find-assign;
  review_context = simp find-assign;
}

-- Whatever the caller gave, the normalised shared state has its four sections, each of its kind, and
-- normalising it again changes nothing.
pub normalize_shared_state-idempotent :
    (d : Fields)
    → HasSections (normalize_shared_state d)
      × (normalize_shared_state (normalize_shared_state d) ≡ normalize_shared_state d)
normalize_shared_state-idempotent d =
    let s = normalize-HasSections d in (s, normal_form (normalize_shared_state d) s)
