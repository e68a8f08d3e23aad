-- ===== src/Tasks/Marks.antt =====
-- app/workers/tasks.py: the marks on the job's row, and the writes on its runtime's.
use ai_video_replication.Common.{
  Bool, ◌&&◌, Option, none, some, String, ◌==◌, pos, ◌+ℤ◌, leb_ℤ, select, find, update_where,
  or_option, given, if◌then◌else◌,
}
use ai_video_replication.Common.Json.{str, moment, Dict, put, or_empty}
use ai_video_replication.Store.{Time, int_fits, opt_text_fits}
use ai_video_replication.Aggregate.{Job, CompiledRuntime, refresh_runtime_status}
use ai_video_replication.Projects.{Database, order_by, first}
use ai_video_replication.Projects.Session.{failure, Outcome, returned, raised, M}
use ai_video_replication.Tasks.{World, Surroundings}
use ai_video_replication.Tasks.Assets.{bad_uuid}

unfoldable pub mark_job_running : Time → String → Job → Job
unfolding put
mark_job_running started_at task_name job = record job {
  status = "running";
  attempt_count = job.attempt_count +ℤ pos 1;
  started_at = some started_at;
  error_code = none;
  error_message = none;
  result_payload = some (
      put "worker_started_at" (moment started_at)
        (put "task" (str task_name) (or_empty job.result_payload)));
}

unfoldable pub mark_job_succeeded : Time → Dict → Job → Job
mark_job_succeeded finished_at payload job = record job {
  status = "succeeded";
  finished_at = some finished_at;
  result_payload = some payload;
}

unfoldable pub mark_job_failed : Time → String → String → Job → Job
unfolding put
mark_job_failed finished_at error_code error_message job = record job {
  status = "failed";
  finished_at = some finished_at;
  error_code = some error_code;
  error_message = some error_message;
  result_payload = some (
      put "worker_finished_at" (moment finished_at) (
        put "error_message" (str error_message)
          (put "error_code" (str error_code) (or_empty job.result_payload))));
}

unfoldable pub row_fits : Job → Bool
row_fits j = int_fits j.attempt_count && opt_text_fits 100 j.error_code

abbrev pub row_error : {A : Type 0} → Outcome A
row_error = raised (failure "value out of range or too long")

abbrev pub is_job : String → Job → Bool
is_job id j = j.id == id

abbrev pub is_runtime : String → CompiledRuntime → Bool
is_runtime id r = r.id == id

-- `created_at.desc()`
abbrev pub newer : CompiledRuntime → CompiledRuntime → Bool
newer a b = leb_ℤ b.created_at a.created_at

abbrev pub of_version : String → String → CompiledRuntime → Bool
of_version project_id runtime_version r =
    r.project_id == project_id && r.runtime_version == runtime_version

abbrev pub with_status :
    Option String → Option String → Option String → CompiledRuntime → CompiledRuntime
with_status compile_status last_error_code last_error_message r = record r {
  compile_status = elim (given compile_status) [ none ↦ r.compile_status | some s ↦ s ];
  last_error_code = or_option last_error_code r.last_error_code;
  last_error_message = or_option last_error_message r.last_error_message;
}

abbrev pub write_job : Job → Database → Database
write_job j db = record db { jobs = update_where (is_job j.id) (λ _. j) db.jobs }

abbrev pub write_runtime : CompiledRuntime → Database → Database
write_runtime r db = record db { runtimes = update_where (is_runtime r.id) (λ _. r) db.runtimes }

module _ {S : Type 0} (env : Surroundings S) where
  abbrev pub of_id : {B : Type 0} → String → (String → B) → Outcome B
  of_id id query = elim (env.uuid (str id)) [ none ↦ bad_uuid | some u ↦ returned (query u) ]

  -- `db.get(Job, UUID(job_id))`
  unfoldable pub get_job : String → M (World S) (Option Job)
  get_job job_id w = (of_id job_id (λ id. find (is_job id) w.db.jobs), w)

  unfoldable pub load_runtime : String → String → Database → Outcome (Option CompiledRuntime)
  load_runtime project_id runtime_version db =
      of_id project_id
        λ id. first (order_by newer (select (of_version id runtime_version) db.runtimes))

  -- A change of the runtime's row, if there is one.
  abbrev pub on_runtime :
      String → String → (Database → CompiledRuntime → CompiledRuntime) → M (World S) (Unit {0})
  on_runtime project_id runtime_version change w =
      elim (load_runtime project_id runtime_version w.db) [
        | raised e ↦ (raised e, w)
        | returned none ↦ (returned tt, w)
        | returned (some r) ↦ (returned tt, record w { db = write_runtime (change w.db r) w.db })
      ]

  unfoldable pub update_runtime_status :
      String → String → Option String → Option String → Option String → M (World S) (Unit {0})
  unfolding load_runtime
  update_runtime_status project_id runtime_version compile_status last_error_code
        last_error_message =
      on_runtime project_id runtime_version
        λ _. with_status compile_status last_error_code last_error_message

  unfoldable pub refresh_runtime_aggregate : String → String → M (World S) (Unit {0})
  unfolding load_runtime
  refresh_runtime_aggregate project_id runtime_version =
      on_runtime project_id runtime_version λ db. refresh_runtime_status db.jobs

  -- A flush of the job's row. The error code and the count are the columns of jobs that a run writes
  -- and that may not fit.
  abbrev pub save_job : Job → M (World S) Job
  save_job j w =
      if row_fits j then (returned j, record w { db = write_job j w.db }) else (row_error, w)
