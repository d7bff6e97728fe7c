-- ===== src/Submissions/Repository.antt =====
-- The rows of the ledger: app/models/async_workflow_submission.py and
-- app/repositories/async_workflow_submission_repository.py. The table is the list of its rows, newest
-- first, and its `task_id` and `request_id` are unique. The times of a row are left out.
use general_agent_framework.Prelude.{
  String, Bool, true, false, ◌&&◌, ◌||◌, Option, none, some, List, [], ◌∷◌, str_eq, is_some,
  if◌then◌else◌,
}
use general_agent_framework.Json.{Fields}
use general_agent_framework.Outcome.{Outcome, returned, raised, other}

pub record AsyncWorkflowSubmissionRecord : Type 0 where
  pub task_id : String
  pub request_id : String
  pub session_id : Option String
  pub user_id : Option String
  pub initial_agent_id : String
  pub task_name : String
  pub queue_name : String
  pub status : String
  pub message : String
  pub result_payload : Option Fields
  pub traceback : Option String
  pub metadata_payload : Fields

abbrev pub Table : Type 0
Table = List AsyncWorkflowSubmissionRecord

-- the repository: `get_by_task_id` and `get_by_request_id`
unfoldable pub get_by_task_id : String → Table → Option AsyncWorkflowSubmissionRecord
get_by_task_id task_id [] = none
get_by_task_id task_id (r ∷ rs) =
    if str_eq r.task_id task_id then some r else get_by_task_id task_id rs

unfoldable pub get_by_request_id : String → Table → Option AsyncWorkflowSubmissionRecord
get_by_request_id request_id [] = none
get_by_request_id request_id (r ∷ rs) =
    if str_eq r.request_id request_id then some r else get_by_request_id request_id rs

-- `add` and `commit`: a row that clashes with a key raises `IntegrityError`, and is not added.
unfoldable pub add :
    AsyncWorkflowSubmissionRecord → Table → Outcome AsyncWorkflowSubmissionRecord × Table
add r table =
    if is_some (get_by_task_id r.task_id table) || is_some (get_by_request_id r.request_id table)
    then (raised (record { class = other "IntegrityError"; text = r.task_id }), table)
    else (returned r, r ∷ table)

-- the assignments to a loaded row, and `commit`
unfoldable pub modify :
    String → (AsyncWorkflowSubmissionRecord → AsyncWorkflowSubmissionRecord) → Table → Table
modify task_id f [] = []
modify task_id f (r ∷ rs) = if str_eq r.task_id task_id then f r ∷ rs else r ∷ modify task_id f rs

-- the conditions of `list_submissions`
pub record Filters : Type 0 where
  pub status : Option String
  pub request_id : Option String
  pub session_id : Option String
  pub user_id : Option String

abbrev pub is_column : Option String → Option String → Bool
is_column none column = true
is_column (some v) none = false
is_column (some v) (some column) = str_eq column v

abbrev pub matches : Filters → AsyncWorkflowSubmissionRecord → Bool
matches f r =
    is_column f.status (some r.status)
    && is_column f.request_id (some r.request_id)
    && is_column f.session_id r.session_id
    && is_column f.user_id r.user_id

unfoldable pub select : Filters → Table → Table
select f [] = []
select f (r ∷ rs) = let rest = select f rs in if matches f r then r ∷ rest else rest
