-- ===== src/Tools/Naming.antt =====
-- A result names the tool that was asked for.
use general_agent_framework.Prelude.{
  ℕ, ◌+◌, subst, String, ◌≡◌, refl, sym, ◌∙◌, Option, none, some, arith, eq_iff, str_eq, Bool-cases,
  inl, inr,
}
use general_agent_framework.Prelude.Dict.{get, put, get-put}
use general_agent_framework.Json.{Fields, end}
use general_agent_framework.Outcome.{
  Outcome, Exception, ExceptionClass, key_error, returned, raised, ◌>>=◌,
}
use general_agent_framework.Agents.{Agent, can_use_tool}
use general_agent_framework.Tools
use general_agent_framework.Tools.{
  ToolContext, ToolCallRequest, ToolResult, ToolClass, ToolRegistry, Tool, register, create,
  tool_result, is_valid_tool_result, check_tool_name,
}
use general_agent_framework.Tools.Executor.{
  ToolWorld, ToolExecutor, denied_result, not_registered_result, uncreated, handled, handled_as,
  contained, run_tool, finish, execute_tool, execute,
}

-- Each tool class stands under its own name, with a configuration beside it.
pub record IsConsistent (r : ToolRegistry) : Type 0 where
  pub class_name :
      (k : String) (c : ToolClass) → get k r.tool_classes ≡ some c → c.metadata.tool_name ≡ k
  pub class_config :
      (k : String) (c : ToolClass)
      → get k r.tool_classes ≡ some c
      → (config : Fields) × (get k r.tool_configs ≡ some config)

abbrev given_config : Option Fields → Fields
given_config none = end
given_config (some d) = d

register-returned :
    (c : ToolClass) (config : Option Fields) (r r' : ToolRegistry)
    → register c config r ≡ returned r'
    → (r'.tool_classes ≡ put c.metadata.tool_name c r.tool_classes)
      × (r'.tool_configs ≡ put c.metadata.tool_name (given_config config) r.tool_configs)
unfolding register
register-returned c none r r' h = ground arith
register-returned c (some d) r r' h = ground arith

config_beside :
    (k j : String) (c : ToolClass) (d : Fields) (e : ToolClass) (r : ToolRegistry)
    → IsConsistent r
    → get j (put k c r.tool_classes) ≡ some e
    → (config : Fields) × (get j (put k d r.tool_configs) ≡ some config)
config_beside k j c d e r v h = elim (Bool-cases (str_eq k j)) [
  | inl q ↦ (d, rw (get-put k j d r.tool_configs, q) refl)
  | inr q ↦
      let (config, at) = v.class_config j e (sym (rw (get-put k j c r.tool_classes, q) refl) ∙ h) in
      (config, rw (get-put k j d r.tool_configs, q) at)
]

-- Registering a tool in a consistent registry, where it succeeds, gives a consistent one.
pub register-IsConsistent :
    (c : ToolClass) (config : Option Fields) (r r' : ToolRegistry)
    → IsConsistent r
    → register c config r ≡ returned r'
    → IsConsistent r'
register-IsConsistent c config r r' v h =
    let (ec, ed) = register-returned c config r r' h in
    let name = c.metadata.tool_name in
    record {
      class_name =
          λ k d e. ground (arith, get-put name k c r.tool_classes, eq_iff name k, v.class_name k d);
      class_config =
          λ k d e. rw ed (config_beside name k c (given_config config) d r v (rw (sym ec) e));
    }

-- In a consistent registry, a tool that exists can be created, and it is the class that stands
-- under the name.
create-returned :
    (r : ToolRegistry) (name : String) (tool : Tool)
    → IsConsistent r
    → create r name ≡ returned tool
    → tool.class.metadata.tool_name ≡ name
unfolding create
create-returned r name tool v h = go (get name r.tool_classes) refl
  where
    go : (o : Option ToolClass) → get name r.tool_classes ≡ o → tool.class.metadata.tool_name ≡ name
    go none e = ground arith
    go (some c) e = ground (arith, v.class_name name c e)

abbrev pub Names : String → Outcome ToolResult → Type 0
Names name (returned r) = r.tool_name ≡ name
Names name (raised e) = Unit

tool_result-Names : (r : ToolResult) → Names r.tool_name (tool_result r)
unfolding tool_result
tool_result-Names r = elim (Bool-cases (is_valid_tool_result r)) [
  | inl q ↦ rw q refl
  | inr q ↦ rw q tt
]

handled-tool_name :
    (request : ToolCallRequest) (e : Exception) → (handled request e).tool_name ≡ request.tool_name
unfolding handled handled_as
handled-tool_name request e = ground arith

check_tool_name-Names : (name : String) (r : ToolResult) → Names name (check_tool_name name r)
unfolding check_tool_name
check_tool_name-Names name r = elim (Bool-cases (str_eq r.tool_name name)) [
  | inl q ↦ rw q ((eq_iff r.tool_name name).0 q)
  | inr q ↦ rw q tt
]

run-Names :
    (tool : Tool) (n : ℕ) (context : ToolContext) (arguments : Fields)
    → Names tool.class.metadata.tool_name (Tools.run tool n context arguments)
unfolding Tools.run
run-Names tool n context arguments =
    go (tool.class.body tool.config n context arguments >>= tool_result)
  where
    go :
        (o : Outcome ToolResult)
        → Names tool.class.metadata.tool_name (o >>= check_tool_name tool.class.metadata.tool_name)
    go (returned r) = check_tool_name-Names tool.class.metadata.tool_name r
    go (raised e) = tt

handled-Names :
    (request : ToolCallRequest) (e : Exception)
    → Names request.tool_name (tool_result (handled request e))
handled-Names request e =
    subst (λ n. Names n (tool_result (handled request e))) (handled-tool_name request e)
      (tool_result-Names (handled request e))

contained-Names :
    (request : ToolCallRequest) (o : Outcome ToolResult)
    → Names request.tool_name o
    → Names request.tool_name (contained request o)
unfolding contained
contained-Names request (returned r) h = h
contained-Names request (raised e) h = handled-Names request e

run_tool-Names :
    (tool : Tool) (n : ℕ) (context : ToolContext) (request : ToolCallRequest)
    → tool.class.metadata.tool_name ≡ request.tool_name
    → Names request.tool_name (run_tool tool n context request)
unfolding run_tool
run_tool-Names tool n context request same =
    contained-Names request (Tools.run tool n context request.arguments) (
      subst (λ k. Names k (Tools.run tool n context request.arguments)) same
        (run-Names tool n context request.arguments))

finish-Names :
    (ex : ToolExecutor) (context : ToolContext) (request : ToolCallRequest) (o : Outcome ToolResult)
    (w : ToolWorld)
    → Names request.tool_name o
    → Names request.tool_name (finish ex context request o w).0
unfolding finish
finish-Names ex context request (returned r) w h = h
finish-Names ex context request (raised e) w h = tt

not_registered-Names :
    (request : ToolCallRequest) (e : Exception)
    → Names request.tool_name (tool_result (not_registered_result request e))
unfolding not_registered_result
not_registered-Names request e = tool_result-Names (not_registered_result request e)

denied-Names :
    (agent : Agent) (request : ToolCallRequest)
    → Names request.tool_name (tool_result (denied_result agent request))
unfolding denied_result
denied-Names agent request = tool_result-Names (denied_result agent request)

uncreated-Names :
    (ex : ToolExecutor) (context : ToolContext) (request : ToolCallRequest) (e : Exception)
    (k : ExceptionClass) (w : ToolWorld)
    → Names request.tool_name (uncreated ex context request e k w).0
unfolding uncreated
uncreated-Names ex context request e key_error w =
    finish-Names ex context request (tool_result (not_registered_result request e)) w
      (not_registered-Names request e)
uncreated-Names ex context request e _ w = tt

execute_tool-Names :
    (ex : ToolExecutor) (context : ToolContext) (request : ToolCallRequest) (o : Outcome Tool)
    (w : ToolWorld)
    → IsConsistent ex.registry
    → create ex.registry request.tool_name ≡ o
    → Names request.tool_name (execute_tool ex context request o w).0
unfolding execute_tool
execute_tool-Names ex context request (returned tool) w v e =
    finish-Names ex context request (run_tool tool w.calls context request)
      (record w { calls = w.calls + 1 })
      (run_tool-Names tool w.calls context request
        (create-returned ex.registry request.tool_name tool v e))
execute_tool-Names ex context request (raised exc) w v e =
    uncreated-Names ex context request exc exc.class w

-- Over a consistent registry, every result that the executor returns names the tool that was asked
-- for, whether the tool ran, was denied, was unknown or raised an exception.
pub execute-Names :
    (ex : ToolExecutor) (agent : Agent) (request : ToolCallRequest) (context : ToolContext)
    (w : ToolWorld)
    → IsConsistent ex.registry
    → Names request.tool_name (execute ex agent request context w).0
unfolding execute
execute-Names ex agent request context w v =
    elim (Bool-cases (can_use_tool agent request.tool_name)) [
      | inl q ↦
          rw q
            (execute_tool-Names ex context request (create ex.registry request.tool_name) w v refl)
      | inr q ↦ rw q (
          finish-Names ex context request (tool_result (denied_result agent request)) w
            (denied-Names agent request))
    ]
