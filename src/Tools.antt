-- ===== src/Tools.antt =====
-- Tool schemas, the tool registry and the tool executor: app/tools/schemas.py,
-- app/tools/registry.py and app/tools/executor.py. A tool's own logic is behind an abstract method:
-- a function of its configuration, the number of tool calls made before, the context and the
-- arguments.
pub mod Executor
pub mod Naming
pub mod Calls
mod Samples
use Prim.Native.String.{◌++◌ as append}
use general_agent_framework.Prelude.{
  ℕ, String, str_eq, Bool, true, ◌&&◌, Option, none, some, List, [], ◌∷◌, if◌then◌else◌,
}
use general_agent_framework.Prelude.Dict.{Dict, get, put, has}
use general_agent_framework.Json.{Fields, end}
use general_agent_framework.Outcome.{
  Outcome, returned, raised, ◌>>=◌, validation_error, value_error, key_error, repr_key,
  repr_message,
}
use general_agent_framework.Agents.{is_name, has_length}

pub data ToolExecutionStatus : Type 0 where
  success failed denied timeout : ToolExecutionStatus

pub data ToolErrorCategory : Type 0 where
  input_validation policy_denied configuration timeout external_dependency execution_exception :
      ToolErrorCategory

pub record ToolMetadata : Type 0 where
  pub tool_name : String
  pub description : String
  pub version : String
  pub timeout_seconds : ℕ
  pub tags : List String

pub record ToolContext : Type 0 where
  pub request_id : String
  pub agent_id : String
  pub session_id : Option String
  pub trace_id : Option String
  pub shared_state : Fields

pub record ToolCallRequest : Type 0 where
  pub tool_name : String
  pub arguments : Fields

pub record ToolResult : Type 0 where
  pub tool_name : String
  pub status : ToolExecutionStatus
  pub content : Fields
  pub message : String
  pub errors : List String
  pub error_category : Option ToolErrorCategory
  pub retryable : Bool
  pub error_detail : Option String
  pub metrics : Fields

optional_length : Option String → Bool
unfolding has_length
optional_length none = true
optional_length (some s) = has_length 0 2000 s

-- the field bounds of `ToolResult`
unfoldable pub is_valid_tool_result : ToolResult → Bool
unfolding is_name has_length optional_length
is_valid_tool_result r =
    is_name r.tool_name && has_length 0 2000 r.message && optional_length r.error_detail

-- The constructor `ToolResult(...)`, which validates its fields.
unfoldable pub tool_result : ToolResult → Outcome ToolResult
tool_result r =
    if is_valid_tool_result r
    then returned r
    else raised (record { class = validation_error; text = "ToolResult" })

pub record ToolClass : Type 0 where
  pub metadata : ToolMetadata
  pub body : Fields → ℕ → ToolContext → Fields → Outcome ToolResult

pub record ToolRegistry : Type 0 where
  pub tool_classes : Dict ToolClass
  pub tool_metadata : Dict ToolMetadata
  pub tool_configs : Dict Fields

abbrev or_empty : Option Fields → Fields
or_empty none = end
or_empty (some d) = d

unfoldable pub register : ToolClass → Option Fields → ToolRegistry → Outcome ToolRegistry
register c config r = elim (get c.metadata.tool_name r.tool_metadata) [
  | some _ ↦ raised (record {
    class = value_error;
    text = append "Tool '" (append c.metadata.tool_name "' is already registered.");
  })
  | none ↦ returned (record {
    tool_classes = put c.metadata.tool_name c r.tool_classes;
    tool_metadata = put c.metadata.tool_name c.metadata r.tool_metadata;
    tool_configs = put c.metadata.tool_name (or_empty config) r.tool_configs;
  })
]

-- one round of `register_many`, with the further ones
unfoldable pub after_register :
    ToolClass
    → (ToolRegistry → Outcome (List ToolClass) × ToolRegistry)
    → ToolRegistry
    → Outcome ToolRegistry
    → Outcome (List ToolClass) × ToolRegistry
after_register c rest r (raised e) = (raised e, r)
after_register c rest r (returned r') =
    let (o, r'') = rest r' in (o >>= λ cs. returned (c ∷ cs), r'')

-- A class that is refused ends the loop; what was registered before it stays.
unfoldable pub register_many :
    List ToolClass → Dict Fields → ToolRegistry → Outcome (List ToolClass) × ToolRegistry
unfolding after_register
register_many [] configs r = (returned [], r)
register_many (c ∷ cs) configs r =
    after_register c (register_many cs configs) r (register c (get c.metadata.tool_name configs) r)

pub exists : ToolRegistry → String → Bool
exists r tool_name = has tool_name r.tool_classes

pub record Tool : Type 0 where
  pub class : ToolClass
  pub config : Fields

-- `BaseTool.run`, around what the tool's own `_run` gives
unfoldable pub check_tool_name : String → ToolResult → Outcome ToolResult
check_tool_name tool_name r =
    if str_eq r.tool_name tool_name
    then returned r
    else raised (record {
      class = value_error;
      text =
          append "Tool result tool_name does not match metadata: "
            (append r.tool_name (append " != " tool_name));
    })

-- The body's own result passes the validation of its constructor.
unfoldable pub run : Tool → ℕ → ToolContext → Fields → Outcome ToolResult
unfolding tool_result check_tool_name
run tool n context arguments =
    tool.class.body tool.config n context arguments
    >>= tool_result
    >>= check_tool_name tool.class.metadata.tool_name

abbrev not_registered : String → String
not_registered tool_name = append "Tool '" (append tool_name "' is not registered.")

unfoldable pub get_metadata : ToolRegistry → String → Outcome ToolMetadata
get_metadata r tool_name = elim (get tool_name r.tool_metadata) [
  | some m ↦ returned m
  | none ↦ raised (record { class = key_error; text = repr_message (not_registered tool_name) })
]

unfoldable pub get_config : ToolRegistry → String → Outcome Fields
get_config r tool_name = elim (get tool_name r.tool_configs) [
  | some d ↦ returned d
  | none ↦ raised (record { class = key_error; text = repr_message (not_registered tool_name) })
]

-- `self._tool_configs[tool_name]`, whose `KeyError` holds the bare key
configure : String → ToolRegistry → ToolClass → Outcome Tool
configure tool_name r c = elim (get tool_name r.tool_configs) [
  | some config ↦ returned (record { class = c; config = config })
  | none ↦ raised (record { class = key_error; text = repr_key tool_name })
]

unfoldable pub create : ToolRegistry → String → Outcome Tool
unfolding configure
create r tool_name = elim (get tool_name r.tool_classes) [
  | some c ↦ configure tool_name r c
  | none ↦ raised (record { class = key_error; text = repr_message (not_registered tool_name) })
]
