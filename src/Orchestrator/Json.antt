-- ===== src/Orchestrator/Json.antt =====
-- What `model_dump` makes of the results that the orchestrator stores as JSON.
use general_agent_framework.Prelude.{String, Option, none, some, List, [], ◌∷◌}
use general_agent_framework.Json.{
  Value, Items, null, bool, num, str, arr, obj, nil, cons, end, field, texts, text_or_null,
}
use general_agent_framework.Agents.{AgentExecutionStatus, AgentResult, PendingToolCall}
use general_agent_framework.Tools.{ToolExecutionStatus, ToolErrorCategory, ToolResult}
use general_agent_framework.Orchestrator.State.{
  AgentRunRecord, WorkflowStatus, WorkflowTerminalReason,
}

abbrev pub agent_status_value : AgentExecutionStatus → String
agent_status_value AgentExecutionStatus.success = "success"
agent_status_value AgentExecutionStatus.failed = "failed"
agent_status_value AgentExecutionStatus.partial = "partial"
agent_status_value AgentExecutionStatus.needs_human_review = "needs_human_review"

abbrev pub workflow_status_value : WorkflowStatus → String
workflow_status_value WorkflowStatus.pending = "pending"
workflow_status_value WorkflowStatus.running = "running"
workflow_status_value WorkflowStatus.completed = "completed"
workflow_status_value WorkflowStatus.failed = "failed"
workflow_status_value WorkflowStatus.needs_human_review = "needs_human_review"

abbrev pub reason_value : WorkflowTerminalReason → String
reason_value WorkflowTerminalReason.natural_completion = "natural_completion"
reason_value WorkflowTerminalReason.agent_failed = "agent_failed"
reason_value WorkflowTerminalReason.agent_exception = "agent_exception"
reason_value WorkflowTerminalReason.agent_not_registered = "agent_not_registered"
reason_value WorkflowTerminalReason.max_steps_exceeded = "max_steps_exceeded"
reason_value WorkflowTerminalReason.needs_human_review = "needs_human_review"
reason_value WorkflowTerminalReason.tool_failed = "tool_failed"
reason_value WorkflowTerminalReason.tool_executor_unavailable = "tool_executor_unavailable"
reason_value WorkflowTerminalReason.tool_owner_not_registered = "tool_owner_not_registered"

abbrev pub tool_status_value : ToolExecutionStatus → String
tool_status_value ToolExecutionStatus.success = "success"
tool_status_value ToolExecutionStatus.failed = "failed"
tool_status_value ToolExecutionStatus.denied = "denied"
tool_status_value ToolExecutionStatus.timeout = "timeout"

abbrev pub category_value : ToolErrorCategory → String
category_value ToolErrorCategory.input_validation = "input_validation"
category_value ToolErrorCategory.policy_denied = "policy_denied"
category_value ToolErrorCategory.configuration = "configuration"
category_value ToolErrorCategory.timeout = "timeout"
category_value ToolErrorCategory.external_dependency = "external_dependency"
category_value ToolErrorCategory.execution_exception = "execution_exception"

abbrev category_json : Option ToolErrorCategory → Value
category_json none = null
category_json (some c) = str (category_value c)

-- `reason.value if reason is not None else None`
abbrev pub reason_json : Option WorkflowTerminalReason → Value
reason_json none = null
reason_json (some r) = str (reason_value r)

-- `ToolResult.model_dump()`
unfoldable pub tool_result_json : ToolResult → Value
tool_result_json r = obj (
    field "tool_name" (str r.tool_name) (
      field "status" (str (tool_status_value r.status)) (
        field "content" (obj r.content) (
          field "message" (str r.message) (
            field "errors" (arr (texts r.errors)) (
              field "error_category" (category_json r.error_category) (
                field "retryable" (bool r.retryable) (
                  field "error_detail" (text_or_null r.error_detail)
                    (field "metrics" (obj r.metrics) end)))))))))

calls_json : List PendingToolCall → Items
calls_json [] = nil
calls_json (c ∷ cs) =
    cons (obj (field "tool_name" (str c.tool_name) (field "arguments" (obj c.arguments) end)))
      (calls_json cs)

-- `AgentResult.model_dump(mode="json")`
unfoldable pub agent_result_json : AgentResult → Value
unfolding calls_json
agent_result_json r = obj (
    field "agent_id" (str r.agent_id) (
      field "status" (str (agent_status_value r.status)) (
        field "summary" (str r.summary) (
          field "output" (obj r.output) (
            field "messages" (arr (texts r.messages)) (
              field "tool_calls" (arr (calls_json r.tool_calls)) (
                field "next_agent_id" (text_or_null r.next_agent_id) (
                  field "requires_human" (bool r.requires_human) (
                    field "errors" (arr (texts r.errors))
                      (field "metrics" (obj r.metrics) end))))))))))

-- `AgentRunRecord.model_dump(mode="json")`, without the two times
run_record_json : AgentRunRecord → Value
run_record_json r = obj (
    field "step_index" (num r.step_index) (
      field "agent_id" (str r.agent_id) (
        field "status" (str (agent_status_value r.status)) (
          field "summary" (str r.summary) (
            field "next_agent_id" (text_or_null r.next_agent_id)
              (field "output" (obj r.output) (field "errors" (arr (texts r.errors)) end)))))))

unfoldable pub history_json : List AgentRunRecord → Items
unfolding run_record_json
history_json [] = nil
history_json (r ∷ rs) = cons (run_record_json r) (history_json rs)
