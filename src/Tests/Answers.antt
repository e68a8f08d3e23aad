-- ===== src/Tests/Answers.antt =====
-- What a client and an operator are told in the scenario.
use ai_video_replication.Common.{
  ◌≡◌, ◌≤◌, refl, pos, inl, inr, ◌⊎◌, some, none, List, [], ◌∷◌, ◌++◌, In, find,
}
use ai_video_replication.Common.Json.{empty}
use ai_video_replication.Common.Text.{codes}
use ai_video_replication.Enums.{JobStatus, AttemptStatus, AttemptType, LeaseStatus}
use ai_video_replication.Store.{RuntimeJob, JobAttempt, ok}
use ai_video_replication.Jobs
use ai_video_replication.Attempts
use ai_video_replication.Leases
use ai_video_replication.Services.Schemas.{World, EndJobResult}
use ai_video_replication.Services.Facade.{get_terminal_view, terminal_view}
use ai_video_replication.Services.Conflicts.{
  IsLeaseConflict, map_repository_value_error-IsLeaseConflict,
}
use ai_video_replication.Tests.Scenario.{voice_job, held}
use ai_video_replication.Runtime.Steps.{run, empty_db}
use ai_video_replication.Runtime.Views.{get_terminal_view-total, latest-highest}
use ai_video_replication.Api.{
  json_response, body, terminal_error, get_terminal_job, post_complete, post_fail,
}
use ai_video_replication.Api.Terminal.{lease_gone, post_complete-once, get_terminal_job-answers}
use ai_video_replication.Aggregate.{
  unset, Job, CompiledRuntime, summary_of, derive_compile_status, derive_dispatch_status,
  refresh_runtime_status,
}
use ai_video_replication.Aggregate.Statuses.{
  compile_status_of, dispatch_status_of, derive_compile_status-jobs, derive_dispatch_status-jobs,
  refresh_runtime_status-again,
}
use ai_video_replication.Tests.Scenario.{played, world_at, done, gives_up, claimed}

get_terminal_view-total_example :
    ((find (Jobs.has_id "job-2") (run claimed empty_db).jobs ≡ none)
      × (get_terminal_view "job-2" (run claimed empty_db) ≡ ok (none, run claimed empty_db)))
    ⊎ ((job : RuntimeJob) × (find (Jobs.has_id "job-2") (run claimed empty_db).jobs ≡ some job)
        × (get_terminal_view "job-2" (run claimed empty_db)
            ≡ ok (
              some (
                  terminal_view job
                    (Attempts.latest "job-2" (run claimed empty_db).attempts)
                    (find (Leases.active_on "job-2") (run claimed empty_db).leases)),
              run claimed empty_db,
            )))
get_terminal_view-total_example = get_terminal_view-total claimed "job-2"

get_terminal_job-answers_example :
    (get_terminal_job "job-2" (run claimed empty_db) ≡ (
      json_response 404 (
          terminal_error
            (codes "job not found: " ++ codes "job-2")
            "runtime_job_not_found"
            (some "job-2")
            none
            none
            none),
      run claimed empty_db,
    ))
    ⊎ ((job : RuntimeJob) × (find (Jobs.has_id "job-2") (run claimed empty_db).jobs ≡ some job)
        × (get_terminal_job "job-2" (run claimed empty_db) ≡ (
          body (
              terminal_view job
                (Attempts.latest "job-2" (run claimed empty_db).attempts)
                (find (Leases.active_on "job-2") (run claimed empty_db).leases)),
          run claimed empty_db,
        )))
get_terminal_job-answers_example = get_terminal_job-answers claimed "job-2"

abbrev first_try : JobAttempt
first_try = record {
  attempt_id = "a1";
  job_id = "job-2";
  attempt_index = 1;
  attempt_type = AttemptType.primary;
  attempt_status = AttemptStatus.failed;
  worker_id = none;
  claim_token = none;
  provider_name = none;
  provider_model = none;
  provider_run_id = none;
  started_at = none;
  finished_at = none;
  completion_status = none;
  error_code = none;
  error_message = none;
  error_payload_json = empty;
  result_ref = none;
  manifest_artifact_id = none;
  queue_wait_ms = none;
  runtime_ms = none;
  provider_runtime_ms = none;
  upload_ms = none;
  metrics_json = empty;
  metadata_json = empty;
}

abbrev tries : List JobAttempt
tries = record first_try { attempt_id = "a2"; attempt_index = 2 } ∷ first_try ∷ []

latest-highest_example :
    (b : JobAttempt) × (Attempts.latest "job-2" tries ≡ some b)
    × In b tries
    × (b.job_id ≡ "job-2")
    × (1 ≤ b.attempt_index)
latest-highest_example = latest-highest "job-2" tries first_try (inr (inl refl)) refl

abbrev ended : EndJobResult
ended = record {
  job_id = "job-2";
  attempt_id = "t1";
  lease_id = "t1";
  job_status = JobStatus.succeeded;
  attempt_status = AttemptStatus.completed;
  lease_status = LeaseStatus.released;
  worker_id = "w";
  current_job_count = 0;
  finished_at = pos 10;
  metadata_json = empty;
}

abbrev later : World
later = world_at (pos 10) "t1"

post_complete-once_example :
    (post_complete later done (post_complete later done (run claimed empty_db)).1
      ≡ (lease_gone "job-2" "t1" "w" "t1", (post_complete later done (run claimed empty_db)).1))
    × (post_fail later gives_up (post_complete later done (run claimed empty_db)).1
        ≡ (lease_gone "job-2" "t1" "w" "t1", (post_complete later done (run claimed empty_db)).1))
unfolding played post_complete
post_complete-once_example =
    post_complete-once later later done (run claimed empty_db) ended done gives_up refl refl refl

abbrev render : Job
render = record {
  id = "1";
  project_id = "p";
  payload_version = some "v1";
  job_type = "render_video";
  status = "failed";
  provider_name = none;
  payload = empty;
  result_payload = none;
  attempt_count = pos 1;
  max_attempts = pos 3;
  external_task_id = none;
  error_code = some "E";
  error_message = none;
  started_at = none;
  finished_at = none;
  created_at = pos 1;
}

abbrev merge : Job
merge = record render {
  id = "2";
  job_type = "merge";
  status = "queued";
  error_code = none;
  created_at = pos 2;
}

abbrev v1 : CompiledRuntime
v1 = record {
  id = "r1";
  project_id = "p";
  runtime_version = "v1";
  compile_status = "compiled";
  dispatch_status = "not_dispatched";
  dispatch_summary = unset;
  runtime_payload = empty;
  last_error_code = none;
  last_error_message = none;
  compile_started_at = none;
  compile_finished_at = none;
  created_at = pos 0;
}

derive_compile_status-jobs_example :
    derive_compile_status (summary_of "v1" (render ∷ merge ∷ [])) "compiled"
    ≡ compile_status_of (render ∷ merge ∷ []) "compiled"
derive_compile_status-jobs_example =
    derive_compile_status-jobs "v1" (render ∷ merge ∷ []) "compiled"

derive_dispatch_status-jobs_example :
    derive_dispatch_status (summary_of "v1" (render ∷ merge ∷ [])) "not_dispatched"
    ≡ dispatch_status_of (render ∷ merge ∷ []) "not_dispatched"
derive_dispatch_status-jobs_example =
    derive_dispatch_status-jobs "v1" (render ∷ merge ∷ []) "not_dispatched"

refresh_runtime_status-again_example :
    refresh_runtime_status (render ∷ merge ∷ []) (refresh_runtime_status (render ∷ merge ∷ []) v1)
    ≡ refresh_runtime_status (render ∷ merge ∷ []) v1
refresh_runtime_status-again_example = refresh_runtime_status-again (render ∷ merge ∷ []) v1

map_repository_value_error-IsLeaseConflict_example :
    IsLeaseConflict (Leases.not_found "t1")
    × IsLeaseConflict (Leases.about held " worker_id mismatch")
    × IsLeaseConflict (Leases.about held " max_extensions exceeded")
    × IsLeaseConflict (Jobs.about voice_job " claim_token mismatch")
    × IsLeaseConflict (Jobs.about voice_job " claimed_by_worker_id mismatch")
    × IsLeaseConflict (Attempts.about first_try " claim_token mismatch")
    × IsLeaseConflict (Attempts.about first_try " worker_id mismatch")
map_repository_value_error-IsLeaseConflict_example =
    map_repository_value_error-IsLeaseConflict "t1" held voice_job first_try
