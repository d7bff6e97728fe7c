-- ===== src/Lib.antt =====
-- A verification library for the general agent framework: the parts of its Python backend that
-- decide what happens to a run, as functions that a proof can be about.
--
-- The program. A run starts at an agent and goes on to the agent that each result names. The
-- orchestrator (app/orchestrator) creates agents from the registry (app/agents), runs the tool
-- calls of their results through the executor (app/tools), loads and stores the turns of the
-- session (app/services/memory_service.py), asks for a human review where a result wants one
-- (app/services/human_review_service.py), and hands its state to the record services. A watchdog
-- (app/services/worker_supervisor.py) starts a worker where the task queue is stalled. A workflow may
-- be sent to that queue: a ledger (app/services/async_workflow_submission_service.py) follows it, the
-- worker's task (app/tasks/workflow_tasks.py) runs the orchestrator, and endpoints
-- (app/api/routes/workflows.py) answer from the ledger. Retrieval (app/knowledge) cuts its documents
-- into pieces and controls the diversity of its hits with transforms of its own.
--
-- The files.
--   Prelude, Prelude/*: lists and dicts over the native numbers, and Boolean tests. No code.
--   Json: `dict[str, Any]` values; Json/Reading: how the program reads their fields; Json/Found:
--     lemmas on that. Outcome: exceptions as values.
--   Agents: app/agents/base; Agents/Registry: app/agents/registry/agent_registry.py.
--   Tools: app/tools/schemas.py, base.py and registry.py; Tools/Executor: executor.py; Tools/Naming
--     and Tools/Calls are proofs on them.
--   Memory: the session messages of app/services/memory_service.py and
--     app/repositories/memory_repository.py. Memory/Durable, Durable/Merge and
--     Durable/Metadata: its long-term memories; Durable/Recall and Durable/Scopes are proofs.
--   Orchestrator/State, Orchestrator/SharedState, Orchestrator/Json: app/orchestrator/state.py,
--     shared_state.py, and the JSON that pydantic dumps of the schemas.
--   Orchestrator/Base and Orchestrator/Session: `BaseOrchestrator` of app/orchestrator/base.py.
--   Orchestrator/Simple and Orchestrator/Simple/Tools: `SimpleOrchestrator` of
--     app/orchestrator/runner.py; Simple/Rounds, Steps, Runs, Endings,
--     Progress and Returns are proofs, as are
--     Orchestrator/References, Orchestrator/Turns and
--     Orchestrator/Sections.
--   Orchestrator/Graph: `LangGraphOrchestrator` of app/orchestrator/langgraph_runner.py; Graph/AgentStep
--     and Graph/ToolStep are its nodes, Graph/Engine its edges and its run; Graph/Nodes, Rounds and
--     Agreement are proofs.
--   Orchestrator/Construct: the constructor of the state, the request of app/schemas/api.py, and the
--     states that app/tasks/workflow_tasks.py and app/api/routes/workflows.py build of it;
--     Construct/Requests is proofs.
--   Submissions: app/services/async_workflow_submission_service.py; Submissions/Repository: its
--     repository and its row; Submissions/Worker: app/tasks/workflow_tasks.py; Submissions/Api:
--     app/api/routes/workflows.py; Submissions/Refresh, Pages, Keys, Ledger and Polling are proofs.
--   Review: app/services/human_review_service.py, its repository and its row; Review/Broker: the
--     event broker; Review/Continuation: the state that continues a review; Review/Decisions,
--     Finality, Delivery, Links and Roundtrip are proofs.
--   Watchdog: app/services/worker_supervisor.py, with the heartbeats of app/infra/worker_health.py;
--     Watchdog/Health and Watchdog/Spawning are proofs.
--   Knowledge and Knowledge/Diversity: app/knowledge/base.py and diversity.py; Knowledge/Quota and
--     Knowledge/Siblings are proofs.
--   Knowledge/Chunking: the cutting of texts of app/knowledge/ingest/chunker.py; Chunking/Termination,
--     Sentences and Partition are proofs.
--   Knowledge/Seeds: the seeds of the graph leg of app/knowledge/graph/expand.py; Seeds/Coverage is
--     proofs.
--   The Samples modules hold small data, runs of the code on them, and examples of the theorems.
--
-- How code becomes a definition. A method takes its object and every store that it changes, and
-- returns the new ones: `World` holds what a run changes outside its state, `ReviewStore` the review
-- table with its broker, `ToolWorld` the log of the tool calls. A call that may raise returns an
-- `Outcome`; what follows a call is a function by clauses on that outcome, so that a `try` is such a
-- function, too. The `for` loop of a run is `loop`, which recurs on the number of steps left and so
-- needs no other bound: it is called with `max_steps`, as the code's `range` is. The walk through a graph
-- counts the nodes that are left of the engine's limit; two for each step and one more are enough. The
-- loop that cuts a huge sentence is on fuel, and the length of the text and one more are enough where the
-- overlap is below the size. The rounds over the legs are on fuel, and one more than the longest leg has
-- hits are enough. Times are natural numbers, in microseconds where durations are compared.
--
-- What enters as a parameter. The body of an agent is a function of the number of agents called
-- before and of the context, and the body of a tool one of the number of tools run before, its
-- configuration, the context and the arguments, so that each call may answer differently. The ids of
-- `uuid4`, the clock and the order of texts of the database, the answers of Redis, the start of a process, the long-term memories that a run is given and
-- those extracted from it, and what Python's libraries say of the wording of two texts are functions or
-- arguments as well. The graph engine is a record of its call `ainvoke` with
-- what its documentation says of it, and what the task queue knows of a task is a function of the task.
--
-- What is not modelled. The tracer and the logging, which only observe; database errors, but for a
-- clash of keys; cancellation; numbers among the knowledge references, which raise here; the time
-- that passes while a summary of the workers is made; the chat service, the language model clients,
-- retrieval but for its diversity controls and the seeds of its graph leg, the extraction of
-- memories, ingestion but for the cutting of texts, the knowledge graph, and the HTTP layer but for
-- the workflow endpoints.
pub mod Prelude
pub mod Json
pub mod Outcome
pub mod Agents
pub mod Tools
pub mod Memory
pub mod Orchestrator
pub mod Review
pub mod Knowledge
pub mod Submissions
pub mod Watchdog
