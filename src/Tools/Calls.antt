-- ===== src/Tools/Calls.antt =====
-- When a tool runs, and what is logged of it.
use general_agent_framework.Prelude.{
  ◌+◌, ◌≡◌, refl, Bool, true, false, ◌&&◌, [], ◌∷◌, ◌++◌, if◌then◌else◌, arith, Bool-cases, ◌⊎◌, ap,
  ◌∙◌, inl, inr, some,
}
use general_agent_framework.Outcome.{
  Outcome, Exception, ExceptionClass, key_error, timeout_error, timeout_subclass, is_timeout,
  returned, raised,
}
use general_agent_framework.Agents.{Agent, can_use_tool}
use general_agent_framework.Tools
use general_agent_framework.Tools.{
  ToolExecutionStatus, ToolErrorCategory, ToolContext, ToolCallRequest, ToolResult, Tool, create,
  tool_result, is_valid_tool_result,
}
use general_agent_framework.Tools.Executor.{
  ToolWorld, ToolExecutor, denied_result, not_registered_result, uncreated, handled, handled_as,
  contained, run_tool, record_tool_call, finish, execute_tool, execute,
}

-- The log after a call that had this outcome: a result that was returned is its last row.
abbrev pub Logs :
    ToolContext → ToolCallRequest → ToolWorld → Outcome ToolResult × ToolWorld → Type 0
Logs context request w (returned r, w') =
    w'.log
    ≡ w.log ++ record { tool_context = context; tool_request = request; tool_result = r } ∷ []
Logs context request w (raised e, w') = w'.log ≡ w.log

finish-Logs :
    (ex : ToolExecutor) (context : ToolContext) (request : ToolCallRequest) (o : Outcome ToolResult)
    (w : ToolWorld)
    → ex.runtime_record_service ≡ true
    → Logs context request w (finish ex context request o w)
unfolding finish
finish-Logs ex context request (returned r) w on = rw on refl
finish-Logs ex context request (raised e) w on = refl

uncreated-Logs :
    (ex : ToolExecutor) (context : ToolContext) (request : ToolCallRequest) (e : Exception)
    (k : ExceptionClass) (w : ToolWorld)
    → ex.runtime_record_service ≡ true
    → Logs context request w (uncreated ex context request e k w)
unfolding uncreated
uncreated-Logs ex context request e key_error w on =
    finish-Logs ex context request (tool_result (not_registered_result request e)) w on
uncreated-Logs ex context request e _ w on = refl

execute_tool-Logs :
    (ex : ToolExecutor) (context : ToolContext) (request : ToolCallRequest) (o : Outcome Tool)
    (w : ToolWorld)
    → ex.runtime_record_service ≡ true
    → Logs context request w (execute_tool ex context request o w)
unfolding execute_tool
execute_tool-Logs ex context request (returned tool) w on =
    finish-Logs ex context request (run_tool tool w.calls context request)
      (record w { calls = w.calls + 1 }) on
execute_tool-Logs ex context request (raised e) w on =
    uncreated-Logs ex context request e e.class w on

-- Where results are recorded, a call that returns a result adds exactly one row to the log, with the
-- context, the request and that result, whether the tool ran, was denied or was unknown; a call that
-- raises adds none.
pub execute-Logs :
    (ex : ToolExecutor) (agent : Agent) (request : ToolCallRequest) (context : ToolContext)
    (w : ToolWorld)
    → ex.runtime_record_service ≡ true
    → Logs context request w (execute ex agent request context w)
unfolding execute
execute-Logs ex agent request context w on =
    elim (Bool-cases (can_use_tool agent request.tool_name)) [
      | inl q ↦
          rw q (execute_tool-Logs ex context request (create ex.registry request.tool_name) w on)
      | inr q ↦
          rw q (finish-Logs ex context request (tool_result (denied_result agent request)) w on)
    ]

abbrev pub is_returned : Outcome Tool → Bool
is_returned (returned _) = true
is_returned (raised _) = false

finish-calls :
    (ex : ToolExecutor) (context : ToolContext) (request : ToolCallRequest) (o : Outcome ToolResult)
    (w : ToolWorld)
    → (finish ex context request o w).1.calls ≡ w.calls
unfolding finish record_tool_call
finish-calls ex context request (returned r) w = ground arith
finish-calls ex context request (raised e) w = refl

uncreated-calls :
    (ex : ToolExecutor) (context : ToolContext) (request : ToolCallRequest) (e : Exception)
    (k : ExceptionClass) (w : ToolWorld)
    → (uncreated ex context request e k w).1.calls ≡ w.calls
unfolding uncreated
uncreated-calls ex context request e key_error w =
    finish-calls ex context request (tool_result (not_registered_result request e)) w
uncreated-calls ex context request e _ w = refl

execute_tool-calls :
    (ex : ToolExecutor) (context : ToolContext) (request : ToolCallRequest) (o : Outcome Tool)
    (w : ToolWorld)
    → (execute_tool ex context request o w).1.calls
      ≡ (if is_returned o then w.calls + 1 else w.calls)
unfolding execute_tool
execute_tool-calls ex context request (returned tool) w =
    finish-calls ex context request (run_tool tool w.calls context request)
      (record w { calls = w.calls + 1 })
execute_tool-calls ex context request (raised e) w = uncreated-calls ex context request e e.class w

-- A call runs one tool where the agent may use it and the registry can create it, and none
-- otherwise.
pub execute-calls :
    (ex : ToolExecutor) (agent : Agent) (request : ToolCallRequest) (context : ToolContext)
    (w : ToolWorld)
    → (execute ex agent request context w).1.calls ≡ (
        if can_use_tool agent request.tool_name
          && is_returned (create ex.registry request.tool_name)
        then w.calls + 1
        else w.calls)
unfolding execute
execute-calls ex agent request context w =
    elim (Bool-cases (can_use_tool agent request.tool_name)) [
      | inl q ↦
          rw q (execute_tool-calls ex context request (create ex.registry request.tool_name) w)
      | inr q ↦ rw q (finish-calls ex context request (tool_result (denied_result agent request)) w)
    ]

-- The result that stands for a tool's exception.
abbrev pub Reported : ToolCallRequest → Exception → ToolResult → Type 0
Reported request e r =
    ((is_timeout e.class ≡ true)
      × (r.status ≡ ToolExecutionStatus.timeout)
      × (r.error_category ≡ some ToolErrorCategory.timeout)
      × (r.retryable ≡ true))
    ⊎ ((is_timeout e.class ≡ false)
        × (r.status ≡ ToolExecutionStatus.failed)
        × (r.error_category ≡ some ToolErrorCategory.execution_exception)
        × (r.retryable ≡ false))

handled-Reported :
    (request : ToolCallRequest) (e : Exception) → Reported request e (handled request e)
unfolding handled
handled-Reported request e = go e.class refl
  where
    go : (k : ExceptionClass) → e.class ≡ k → Reported request e (handled_as request e k)
    go timeout_error q = inl (ap is_timeout q, refl, refl, refl)
    go (timeout_subclass n) q = inl (ap is_timeout q, refl, refl, refl)
    go _ q = inr (ap is_timeout q, refl, refl, refl)

execute_ran :
    (ex : ToolExecutor) (agent : Agent) (request : ToolCallRequest) (context : ToolContext)
    (w : ToolWorld) (tool : Tool)
    → can_use_tool agent request.tool_name ≡ true
    → create ex.registry request.tool_name ≡ returned tool
    → execute ex agent request context w
      ≡ finish ex context request
          (contained request (Tools.run tool w.calls context request.arguments))
          (record w { calls = w.calls + 1 })
unfolding execute execute_tool run_tool
execute_ran ex agent request context w tool may made = rw (may, made) refl

-- An exception that a permitted and registered tool raises does not leave the executor, where the
-- result that stands for it is within the bounds of `ToolResult`: the call returns it, as a timeout
-- that may be retried, for a `TimeoutError` or a subclass of it, or as a failure that may not.
pub execute-Reported :
    (ex : ToolExecutor) (agent : Agent) (request : ToolCallRequest) (context : ToolContext)
    (w : ToolWorld) (tool : Tool) (e : Exception)
    → can_use_tool agent request.tool_name ≡ true
    → create ex.registry request.tool_name ≡ returned tool
    → Tools.run tool w.calls context request.arguments ≡ raised e
    → is_valid_tool_result (handled request e) ≡ true
    → (r : ToolResult) × ((execute ex agent request context w).0 ≡ returned r)
      × Reported request e r
unfolding finish contained tool_result
execute-Reported ex agent request context w tool e may made raises valid = (
  handled request e,
  ap (λ o. o.0) (execute_ran ex agent request context w tool may made) ∙ rw (raises, valid) refl,
  handled-Reported request e,
)
