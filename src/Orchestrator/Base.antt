-- ===== src/Orchestrator/Base.antt =====
-- What both orchestrators share: `BaseOrchestrator` of app/orchestrator/base.py. The tracer, which
-- only observes, is left out, and so are database errors, but for those of the review table. An
-- orchestrator state is passed on and returned; where a call raises, the state is lost with it, as
-- it is to the callers of `run`.
use general_agent_framework.Prelude.{
  ℕ, String, ◌+◌, Bool, true, false, ◌&&◌, Option, none, some, List, [], ◌∷◌, ◌++◌, if◌then◌else◌,
}
use general_agent_framework.Json.{
  Value, Items, Fields, str, arr, obj, nil, cons, end, field, find, assign,
}
use general_agent_framework.Json.Reading.{truthy}
use general_agent_framework.Outcome.{Outcome, returned, raised, ◌>>=◌, type_error, attribute_error}
use general_agent_framework.Agents.{Agent, AgentContext, AgentResult, contains}
use general_agent_framework.Agents
use general_agent_framework.Agents.Registry.{AgentRegistry}
use general_agent_framework.Tools.Executor.{ToolExecutor, ToolWorld}
use general_agent_framework.Memory.{SessionMessage, MemoryService}
use general_agent_framework.Review.{ReviewStore, HumanReviewTask, create_from_state}
use general_agent_framework.Orchestrator.State.{
  WorkflowStatus, needs_human_review, OrchestratorState, AgentRunRecord, agent_run_record,
  to_agent_context,
}
use general_agent_framework.Orchestrator.SharedState.{record_agent_output}

-- What an orchestrator is built with. `uuid` is the sequence of the ids of new reviews.
pub record Services : Type 0 where
  pub registry : AgentRegistry
  pub llm_service : Bool
  pub memory_service : Option MemoryService
  pub human_review_service : Bool
  pub uuid : ℕ → String
  pub runtime_record_service : Bool
  pub workflow_run_service : Bool
  pub tool_executor : Option ToolExecutor

-- What a run changes outside its state: the number of agents called, the tools, the session
-- messages, the reviews, and the states handed to the two record services.
pub record World : Type 0 where
  pub agent_calls : ℕ
  pub tools : ToolWorld
  pub messages : List SessionMessage
  pub reviews : ReviewStore
  pub runtime_records : List OrchestratorState
  pub workflow_runs : List OrchestratorState

unfoldable pub build_agent_context : Services → OrchestratorState → Outcome AgentContext
unfolding to_agent_context
build_agent_context sv s = to_agent_context s >>= λ c.
    returned (if sv.llm_service then record c { llm_service = true } else c)

-- The keys of `dict.fromkeys` in a list. A list or a dict among them is unhashable, which raises. A
-- number, a Boolean or `None` would be a key in Python: references are texts here, so that it raises too.
list_texts : Items → Outcome (List String)
list_texts nil = returned []
list_texts (cons (str t) xs) = list_texts xs >>= λ ts. returned (t ∷ ts)
list_texts (cons v xs) = raised (record { class = type_error; text = "unhashable" })

-- a text is the sequence of its characters, and a dict that of its keys
unfoldable pub characters : String → List String
characters String.[] = []
characters (String.◌∷◌ c s) = String.◌∷◌ c String.[] ∷ characters s

unfoldable pub names : Fields → List String
names end = []
names (field k v d) = k ∷ names d

-- the items of what is unpacked
unpacked : Value → Outcome (List String)
unfolding list_texts characters names
unpacked (str s) = returned (characters s)
unpacked (arr xs) = list_texts xs
unpacked (obj d) = returned (names d)
unpacked v = raised (record { class = type_error; text = "iterable" })

-- `[*(refs or [])]`
refs_of : Option Value → Outcome (List String)
unfolding unpacked
refs_of none = returned []
refs_of (some v) = if truthy v then unpacked v else returned []

-- `knowledge_output.get("knowledge_refs") or []`
unfoldable pub retrieved_refs : Option Value → Outcome (List String)
unfolding refs_of
retrieved_refs none = returned []
retrieved_refs (some (obj d)) = refs_of (find "knowledge_refs" d)
retrieved_refs (some _) = raised (record { class = attribute_error; text = "get" })

unfoldable pub knowledge_refs_in : Option Value → Outcome (List String)
unfolding retrieved_refs
knowledge_refs_in none = returned []
knowledge_refs_in (some (obj d)) = retrieved_refs (find "knowledge_agent" d)
knowledge_refs_in (some _) = raised (record { class = attribute_error; text = "get" })

-- `list(dict.fromkeys(refs))`, after the keys `seen`
unfoldable pub distinct : List String → List String → List String
distinct seen [] = []
distinct seen (x ∷ xs) = elim (contains x seen) [
  | true ↦ distinct seen xs
  | false ↦ x ∷ distinct (x ∷ seen) xs
]

unfoldable pub sync_knowledge_refs : OrchestratorState → Outcome OrchestratorState
unfolding knowledge_refs_in distinct
sync_knowledge_refs s = knowledge_refs_in (find "agent_outputs" s.shared_state) >>= λ refs.
    returned (record s { knowledge_refs = distinct [] (s.knowledge_refs ++ refs) })

-- `memory.setdefault(key, {})[k] = v`
unfoldable pub put_in_memory : String → String → Value → Fields → Outcome Fields
put_in_memory key k v memory = elim (find key memory) [
  | none ↦ returned (assign key (obj (field k v end)) memory)
  | some (obj d) ↦ returned (assign key (obj (assign k v d)) memory)
  | some _ ↦ raised (record { class = type_error; text = "item assignment" })
]

with_review_id : HumanReviewTask → Fields → Outcome Fields
unfolding put_in_memory
with_review_id t = put_in_memory "human_review" "review_id" (str t.id)

-- The state after the call: the `except` swallows a failure of either statement.
after_review : OrchestratorState → Outcome HumanReviewTask → OrchestratorState
unfolding with_review_id
after_review s (raised _) = s
after_review s (returned t) = elim (with_review_id t s.memory) [
  | returned m ↦ record s { memory = m }
  | raised _ ↦ s
]

abbrev pub awaits_review : WorkflowStatus → Bool
awaits_review needs_human_review = true
awaits_review _ = false

unfoldable pub create_human_review_if_needed :
    Services → OrchestratorState → World → OrchestratorState × World
unfolding after_review
create_human_review_if_needed sv s w =
    if sv.human_review_service && awaits_review s.status
    then (
      after_review s (create_from_state sv.uuid s w.reviews).0,
      record w { reviews = (create_from_state sv.uuid s w.reviews).1 },
    )
    else (s, w)

-- `_run_agent_with_tracing`, with no tracer
unfoldable pub run_agent : Agent → AgentContext → World → Outcome AgentResult × World
run_agent agent context w =
    (Agents.run agent w.agent_calls context, record w { agent_calls = w.agent_calls + 1 })

unfoldable pub new_record : ℕ → AgentResult → AgentRunRecord
new_record step_index r = record {
  step_index = step_index;
  agent_id = r.agent_id;
  status = r.status;
  summary = r.summary;
  next_agent_id = r.next_agent_id;
  output = r.output;
  errors = r.errors;
}

unfoldable pub with_result :
    AgentResult → OrchestratorState → AgentRunRecord → Fields → OrchestratorState
with_result r s rec shared = record s {
  execution_path = s.execution_path ++ r.agent_id ∷ [];
  run_history = s.run_history ++ rec ∷ [];
  final_result = some r;
  shared_state = shared;
  errors = s.errors ++ r.errors;
}

unfoldable pub apply_result : ℕ → AgentResult → OrchestratorState → Outcome OrchestratorState
unfolding new_record with_result
apply_result step_index r s = agent_run_record (new_record step_index r) >>= λ rec.
    record_agent_output s.shared_state r.agent_id r.output >>= λ shared.
    returned (with_result r s rec shared)

unfoldable pub persist_runtime_records : Services → OrchestratorState → World → World
persist_runtime_records sv s w = record w {
  runtime_records =
      if sv.runtime_record_service then w.runtime_records ++ s ∷ [] else w.runtime_records;
  workflow_runs = if sv.workflow_run_service then w.workflow_runs ++ s ∷ [] else w.workflow_runs;
}
