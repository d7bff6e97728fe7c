-- ===== src/Agents.antt =====
-- The agent protocol: app/agents/base/schemas.py and app/agents/base/agent.py.
-- An agent's own logic, `_run`, is code behind an abstract method: it is a function of the number
-- of calls that the run has made before (so it may answer differently each time) and the context.
pub mod Registry
use Prim.Native.Char.{code}
use Prim.Native.String.{◌++◌ as append}
use general_agent_framework.Prelude.{
  ℕ, String, count, Bool, true, false, ◌&&◌, ◌||◌, Option, none, some, List, [], ◌∷◌, leb, ◌==◌,
  str_eq, if◌then◌else◌,
}
use general_agent_framework.Json.{Value, Fields}
use general_agent_framework.Outcome.{
  Outcome, returned, raised, ◌>>=◌, validation_error, value_error,
}

pub data AgentKind : Type 0 where
  system domain : AgentKind

pub data AgentExecutionStatus : Type 0 where
  success failed partial needs_human_review : AgentExecutionStatus

pub record AgentMetadata : Type 0 where
  pub agent_id : String
  pub agent_name : String
  pub agent_role : String
  pub agent_kind : AgentKind
  pub description : String
  pub version : String
  pub allowed_tools : List String
  pub llm_profile : Value
  pub tags : List String

-- `llm_service` only says whether a service was injected.
pub record AgentContext : Type 0 where
  pub request_id : String
  pub session_id : Option String
  pub user_id : Option String
  pub workflow_id : Option String
  pub trace_id : Option String
  pub input_text : Option String
  pub structured_input : Fields
  pub shared_state : Fields
  pub memory : Fields
  pub knowledge_refs : List String
  pub llm_profile : Option Value
  pub llm_service : Bool

pub record PendingToolCall : Type 0 where
  pub tool_name : String
  pub arguments : Fields

pub record AgentResult : Type 0 where
  pub agent_id : String
  pub status : AgentExecutionStatus
  pub summary : String
  pub output : Fields
  pub messages : List String
  pub tool_calls : List PendingToolCall
  pub next_agent_id : Option String
  pub requires_human : Bool
  pub errors : List String
  pub metrics : Fields

-- the pattern ^[a-z][a-z0-9_]*$
all_word : String → Bool
all_word String.[] = true
all_word (String.◌∷◌ c s) =
    (leb b'a' (code c) && leb (code c) b'z'
      || leb b'0' (code c) && leb (code c) b'9'
      || code c == b'_')
    && all_word s

unfoldable pub is_identifier : String → Bool
unfolding all_word
is_identifier String.[] = false
is_identifier (String.◌∷◌ c s) = leb b'a' (code c) && leb (code c) b'z' && all_word s

-- min_length, max_length
unfoldable pub has_length : ℕ → ℕ → String → Bool
has_length lo hi s = leb lo (count s) && leb (count s) hi

-- the bounds on the identifiers of agents and tools
unfoldable pub is_name : String → Bool
unfolding has_length is_identifier
is_name s = has_length 3 64 s && is_identifier s

unfoldable pub is_next_id : Option String → Bool
unfolding has_length is_identifier
is_next_id none = true
is_next_id (some s) = has_length 0 64 s && is_identifier s

all_named : List PendingToolCall → Bool
unfolding is_name
all_named [] = true
all_named (c ∷ cs) = is_name c.tool_name && all_named cs

-- the field bounds of `AgentResult`
unfoldable pub is_valid_result : AgentResult → Bool
unfolding has_length is_next_id all_named
is_valid_result r =
    has_length 3 64 r.agent_id
    && has_length 0 2000 r.summary
    && is_next_id r.next_agent_id
    && all_named r.tool_calls

-- The constructor `AgentResult(...)`, which validates its fields.
unfoldable pub agent_result : AgentResult → Outcome AgentResult
agent_result r =
    if is_valid_result r
    then returned r
    else raised (record { class = validation_error; text = "AgentResult" })

pub record Agent : Type 0 where
  pub metadata : AgentMetadata
  pub body : ℕ → AgentContext → Outcome AgentResult

check_id : String → AgentResult → Outcome AgentResult
check_id id r =
    if str_eq r.agent_id id
    then returned r
    else raised (record {
      class = value_error;
      text =
          append "Agent result agent_id does not match metadata: "
            (append r.agent_id (append " != " id));
    })

-- `BaseAgent.run`
unfoldable pub run : Agent → ℕ → AgentContext → Outcome AgentResult
unfolding check_id agent_result
run agent n context = agent.body n context >>= agent_result >>= check_id agent.metadata.agent_id

-- `tool_name in allowed_tools`
unfoldable pub contains : String → List String → Bool
contains k [] = false
contains k (x ∷ xs) = str_eq x k || contains k xs

unfoldable pub can_use_tool : Agent → String → Bool
unfolding contains
can_use_tool agent tool_name = contains tool_name agent.metadata.allowed_tools
