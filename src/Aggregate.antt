-- ===== src/Aggregate.antt =====
-- app/services/runtime_state_service.py: the status of a compiled runtime, from the statuses of its
-- jobs. The rows are those of app/db/models/job.py and app/db/models/compiled_runtime.py, with the
-- columns that it, the workers' tasks and the compiler read or write.
pub mod Statuses
use ai_video_replication.Common.{
  ℕ, suc, ◌+◌, ℤ, ltb, leb, nat_eq, leb_ℤ, Bool, true, false, not, ◌&&◌, if◌then◌else◌, Option,
  none, some, List, [], ◌∷◌, String, ◌==◌, option_is, or_text, select, count, length, map,
}
use ai_video_replication.Common.Json.{Dict}
use ai_video_replication.Store.{Time}

-- `payload_version` is what `payload["runtime_version"].astext` reads, a column of its own here since
-- no code changes it.
pub record Job : Type 0 where
  pub id : String
  pub project_id : String
  pub payload_version : Option String
  pub job_type : String
  pub status : String
  pub provider_name : Option String
  pub payload : Dict
  pub result_payload : Option Dict
  pub attempt_count : ℤ
  pub max_attempts : ℤ
  pub external_task_id : Option String
  pub error_code : Option String
  pub error_message : Option String
  pub started_at : Option Time
  pub finished_at : Option Time
  pub created_at : Time

pub record JobEntry : Type 0 where
  pub job_id : String
  pub job_type : String
  pub status : String
  pub attempt_count : ℤ
  pub max_attempts : ℤ
  pub external_task_id : Option String
  pub error_code : Option String

pub record Summary : Type 0 where
  pub runtime_version : String
  pub job_count : ℕ
  pub queued_job_count : ℕ
  pub dispatched_job_count : ℕ
  pub running_job_count : ℕ
  pub succeeded_job_count : ℕ
  pub failed_job_count : ℕ
  pub jobs : List JobEntry

-- What a compile request with `dispatch_jobs` leaves of a job, and of all of them.
pub record DispatchedJob : Type 0 where
  pub job_id : String
  pub job_type : String
  pub status : String
  pub external_task_id : Option String

pub record Dispatched : Type 0 where
  pub runtime_version : String
  pub job_count : ℕ
  pub queued_job_count : ℕ
  pub dispatched_job_count : ℕ
  pub undispatched_job_count : ℕ
  pub dispatch_status : String
  pub jobs : List DispatchedJob

-- The dict in the column: `{}`, the compiler's, or that of a refresh.
pub data DispatchSummary : Type 0 where
  unset : DispatchSummary
  dispatched : Dispatched → DispatchSummary
  refreshed : Summary → DispatchSummary

pub record CompiledRuntime : Type 0 where
  pub id : String
  pub project_id : String
  pub runtime_version : String
  pub compile_status : String
  pub dispatch_status : String
  pub dispatch_summary : DispatchSummary
  pub runtime_payload : Dict
  pub last_error_code : Option String
  pub last_error_message : Option String
  pub compile_started_at : Option Time
  pub compile_finished_at : Option Time
  pub created_at : Time

abbrev pub belongs : CompiledRuntime → Job → Bool
belongs runtime job =
    job.project_id == runtime.project_id && option_is job.payload_version runtime.runtime_version

-- `order_by(Job.created_at.asc())`
pub insert_by_age : Job → List Job → List Job
insert_by_age j [] = j ∷ []
insert_by_age j (k ∷ ks) =
    if leb_ℤ j.created_at k.created_at then j ∷ k ∷ ks else k ∷ insert_by_age j ks

pub by_age : List Job → List Job
unfolding insert_by_age
by_age [] = []
by_age (j ∷ js) = insert_by_age j (by_age js)

abbrev pub has_status : String → Job → Bool
has_status status job = job.status == status

abbrev pub job_entry : Job → JobEntry
job_entry job = record {
  job_id = job.id;
  job_type = job.job_type;
  status = job.status;
  attempt_count = job.attempt_count;
  max_attempts = job.max_attempts;
  external_task_id = job.external_task_id;
  error_code = job.error_code;
}

abbrev pub summary_of : String → List Job → Summary
summary_of runtime_version jobs = record {
  runtime_version = runtime_version;
  job_count = length jobs;
  queued_job_count = count (has_status "queued") jobs;
  dispatched_job_count = count (has_status "dispatched") jobs;
  running_job_count = count (has_status "running") jobs;
  succeeded_job_count = count (has_status "succeeded") jobs;
  failed_job_count = count (has_status "failed") jobs;
  jobs = map job_entry jobs;
}

unfoldable pub build_summary : List Job → CompiledRuntime → Summary
unfolding by_age
build_summary table runtime =
    summary_of runtime.runtime_version (by_age (select (belongs runtime) table))

unfoldable pub derive_compile_status : Summary → String → String
derive_compile_status s current_status =
    let active_job_count = s.queued_job_count + s.dispatched_job_count + s.running_job_count in
    if nat_eq s.job_count 0
    then current_status
    else if ltb 0 s.failed_job_count
    then "failed"
    else if nat_eq s.succeeded_job_count s.job_count
    then "succeeded"
    else if ltb 0 active_job_count
    then "running"
    else current_status

unfoldable pub derive_dispatch_status : Summary → String → String
derive_dispatch_status s current_status =
    let dispatched_or_beyond =
      s.dispatched_job_count + s.running_job_count + s.succeeded_job_count + s.failed_job_count in
    if nat_eq s.job_count 0
    then current_status
    else if nat_eq dispatched_or_beyond 0
    then "not_dispatched"
    else if ltb dispatched_or_beyond s.job_count
    then "partially_dispatched"
    else "fully_dispatched"

-- `failed_jobs[-1]`
abbrev pub last_failed : List JobEntry → Option JobEntry
last_failed [] = none
last_failed (e ∷ es) = elim (last_failed es) [
  | none ↦ if e.status == "failed" then some e else none
  | some f ↦ some f
]

-- The rest of `refresh_runtime_status`, once the statuses are set.
unfoldable pub with_error : Option JobEntry → CompiledRuntime → CompiledRuntime
with_error (some latest_failed) runtime = record runtime {
  last_error_code = or_text latest_failed.error_code runtime.last_error_code;
}
with_error none runtime =
    if runtime.compile_status == "failed"
    then runtime
    else record runtime { last_error_code = none; last_error_message = none }

unfoldable pub refresh_with : Summary → CompiledRuntime → CompiledRuntime
unfolding with_error derive_compile_status derive_dispatch_status
refresh_with summary runtime = with_error (last_failed summary.jobs) (record runtime {
  dispatch_summary = refreshed summary;
  dispatch_status = derive_dispatch_status summary runtime.dispatch_status;
  compile_status = derive_compile_status summary runtime.compile_status;
})

unfoldable pub refresh_runtime_status : List Job → CompiledRuntime → CompiledRuntime
unfolding build_summary refresh_with
refresh_runtime_status table runtime = refresh_with (build_summary table runtime) runtime
