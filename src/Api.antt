-- ===== src/Api.antt =====
-- app/api/v1/routes/runtime_terminal.py: the three routes over RuntimeTerminalFacade, and how they map
-- the services' exceptions to responses. An exception that a route does not catch becomes the
-- framework's own response.
pub mod Terminal
use ai_video_replication.Common.{ℕ, ◌++◌, Option, none, some, String}
use ai_video_replication.Common.Json.{Dict, empty}
use ai_video_replication.Common.Text.{Text, codes}
use ai_video_replication.Store.{
  Db, Result, ok, err, Exn, value_error, lease_conflict, state_conflict, integrity_error,
  data_error, multiple_results_found,
}
use ai_video_replication.Services.Schemas.{World, CompleteJobRequest, FailJobRequest, EndJobResult}
use ai_video_replication.Services.Complete.{complete_job}
use ai_video_replication.Services.Fail.{fail_job}
use ai_video_replication.Services.Facade.{RuntimeJobTerminalView, get_terminal_view}

pub record RuntimeTerminalErrorResponse : Type 0 where
  pub detail : Text
  pub error_type : String
  pub job_id : Option String
  pub attempt_id : Option String
  pub worker_id : Option String
  pub claim_token : Option String
  pub metadata_json : Dict

-- `json_response` is a JSONResponse with its status code.
pub data Response (A : Type 0) : Type 0 where
  body : A → Response A
  json_response : ℕ → RuntimeTerminalErrorResponse → Response A
  unhandled : Exn → Response A

abbrev pub terminal_error :
    Text
    → String
    → Option String
    → Option String
    → Option String
    → Option String
    → RuntimeTerminalErrorResponse
terminal_error detail error_type job_id attempt_id worker_id claim_token = record {
  detail = detail;
  error_type = error_type;
  job_id = job_id;
  attempt_id = attempt_id;
  worker_id = worker_id;
  claim_token = claim_token;
  metadata_json = empty;
}

abbrev pub terminal_error_json_response :
    {A : Type 0}
    → ℕ
    → Text
    → String
    → Option String
    → Option String
    → Option String
    → Option String
    → Response A
terminal_error_json_response status_code detail error_type job_id attempt_id worker_id claim_token =
    json_response status_code
      (terminal_error detail error_type job_id attempt_id worker_id claim_token)

-- `if view is None`
unfoldable pub job_response :
    String → Option RuntimeJobTerminalView → Response RuntimeJobTerminalView
job_response job_id none =
    terminal_error_json_response 404 (codes "job not found: " ++ codes job_id)
      "runtime_job_not_found" (some job_id) none none none
job_response job_id (some view) = body view

unfoldable pub get_terminal_job : String → Db → Response RuntimeJobTerminalView × Db
unfolding job_response
get_terminal_job job_id db = elim (get_terminal_view job_id db) [
  | ok (view, db') ↦ (job_response job_id view, db')
  | err e ↦ (unhandled e, db)
]

-- The `except` clauses, which are the same in both routes.
unfoldable pub conflict_response :
    {A : Type 0} → String → String → String → String → Result A → Response A
conflict_response job_id attempt_id worker_id claim_token (ok a) = body a
conflict_response job_id attempt_id worker_id claim_token (err (lease_conflict detail)) =
    terminal_error_json_response 409 detail "runtime_lease_conflict" (some job_id) (some attempt_id)
      (some worker_id) (some claim_token)
conflict_response job_id attempt_id worker_id claim_token (err (state_conflict detail)) =
    terminal_error_json_response 409 detail "runtime_state_conflict" (some job_id) (some attempt_id)
      (some worker_id) (some claim_token)
conflict_response job_id attempt_id worker_id claim_token (err (value_error t)) =
    unhandled (value_error t)
conflict_response job_id attempt_id worker_id claim_token (err integrity_error) =
    unhandled integrity_error
conflict_response job_id attempt_id worker_id claim_token (err data_error) = unhandled data_error
conflict_response job_id attempt_id worker_id claim_token (err multiple_results_found) =
    unhandled multiple_results_found

unfoldable pub post_complete : World → CompleteJobRequest → Db → Response EndJobResult × Db
unfolding conflict_response
post_complete env payload db =
    let (result, db') = complete_job env payload db in
    (
      conflict_response payload.job_id payload.attempt_id payload.worker_id payload.claim_token
          result,
      db',
    )

unfoldable pub post_fail : World → FailJobRequest → Db → Response EndJobResult × Db
unfolding conflict_response
post_fail env payload db =
    let (result, db') = fail_job env payload db in
    (
      conflict_response payload.job_id payload.attempt_id payload.worker_id payload.claim_token
          result,
      db',
    )
