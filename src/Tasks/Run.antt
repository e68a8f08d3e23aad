-- ===== src/Tasks/Run.antt =====
-- app/workers/tasks.py: `_run_job` and the tasks that call it. No other transaction commits while the
-- executor runs.
use ai_video_replication.Common.{Option, none, some, String, ℤ, or_else}
use ai_video_replication.Common.Json.{Json, null, int, str, moment, obj, Dict, empty, entry, merge}
use ai_video_replication.Common.Strings.{str_of}
use ai_video_replication.Store.{Time}
use ai_video_replication.Aggregate.{Job}
use ai_video_replication.Projects.{Asset}
use ai_video_replication.Projects.Session.{
  Exn, value_error, Outcome, returned, raised, M, ◌>>=◌, ◌>>◌, pure, lift, need,
}
use ai_video_replication.Tasks.{ExecutionResult, AssetPlan, World, Surroundings}
use ai_video_replication.Tasks.Content.{validate_execution_result, extract_error_details}
use ai_video_replication.Tasks.Materialize.{
  Materialization, Registration, opt_json, write_asset, register_generated_asset,
  materialize_generated_asset,
}
use ai_video_replication.Tasks.Marks.{
  mark_job_running, mark_job_succeeded, mark_job_failed, get_job, update_runtime_status,
  refresh_runtime_aggregate, save_job,
}

-- The arguments of a task, and the name and the plan that it calls `_run_job` with.
pub record Run : Type 0 where
  pub job_id : String
  pub project_id : String
  pub runtime_version : String
  pub task_name : String
  pub asset_plan : Option AssetPlan

abbrev pub size_json : Option ℤ → Json
size_json none = null
size_json (some n) = int n

-- `_build_asset_payload` of an asset
unfoldable pub build_asset_payload : Asset → Dict
unfolding str_of
build_asset_payload a = entry "asset_id" (str a.id) (
    entry "bucket_name" (str a.bucket_name) (
      entry "object_key" (str (str_of a.object_key)) (
        entry "asset_type" (str a.asset_type) (
          entry "asset_role" (str a.asset_role) (
            entry "status" (str a.status) (
              entry "content_type" (opt_json a.content_type)
                (entry "file_size" (size_json a.file_size) empty)))))))

abbrev pub materialization_payload : Materialization → Dict
materialization_payload m = entry "bucket_name" (str m.bucket_name) (
    entry "object_key" (str (str_of m.object_key)) (
      entry "idempotency" (str m.idempotency) (
        entry "status" (str m.status) (
          entry "etag" (opt_json m.etag)
            (entry "version_id" (opt_json m.version_id) (entry "size" (size_json m.size) empty))))))

abbrev pub asset_entries : Option (Asset × Materialization) → Dict
asset_entries none = empty
asset_entries (some (a, m)) =
    entry "asset" (obj (build_asset_payload a))
      (entry "materialization" (obj (materialization_payload m)) empty)

abbrev pub result_of : Run → Time → ExecutionResult → Option (Asset × Materialization) → Dict
result_of run finished_at r stored = entry "job_id" (str run.job_id) (
    entry "project_id" (str run.project_id) (
      entry "runtime_version" (str run.runtime_version) (
        entry "status" (str (or_else r.status "succeeded")) (
          entry "task" (str run.task_name) (
            entry "provider" (str (or_else r.provider "unknown")) (
              entry "worker_finished_at" (moment finished_at) (
                entry "provider_payload" (or_else r.provider_payload (obj empty))
                  (asset_entries stored))))))))

abbrev pub failed_registration : AssetPlan → Registration
failed_registration asset_plan = record {
  asset_type = asset_plan.asset_type;
  asset_role = asset_plan.asset_role;
  filename = asset_plan.filename;
  content_type = asset_plan.content_type;
  status = "failed";
}

abbrev pub failed_metadata : String → String → Dict
failed_metadata error_code error_message = entry "materialization_status" (str "failed") (
    entry "materialization_error" (str error_message)
      (entry "materialization_error_code" (str error_code) empty))

-- `db.rollback()`, or `db.close()` without a commit: the objects stay as they are.
abbrev pub rolled_back : {S : Type 0} → World S → World S → World S
rolled_back before w = record w { db = before.db }

module _ {S : Type 0} (env : Surroundings S) where
  abbrev pub present_job : String → String → M (World S) Job
  present_job job_id error = get_job env job_id >>= λ found. lift (need found (value_error error))

  -- Up to the first commit.
  abbrev pub start : Run → M (World S) Job
  start run = present_job run.job_id "job_not_found" >>= λ found.
      save_job env (mark_job_running env.started_at run.task_name found) >>= λ job.
      update_runtime_status env run.project_id run.runtime_version (some "running") none none
      >> refresh_runtime_aggregate env run.project_id run.runtime_version
      >> pure job

  abbrev pub store :
      Run
      → Job
      → ExecutionResult
      → Option AssetPlan
      → M (World S) (Job × Option (Asset × Materialization))
  store run job r none = pure (job, none)
  store run job r (some asset_plan) =
      present_job run.job_id "job_not_found_after_execution" >>= λ found.
      materialize_generated_asset env run.project_id run.runtime_version found asset_plan r
      >>= λ stored. pure (found, some stored)

  -- From the executor's result to the second commit.
  abbrev pub finish : Run → Job → ExecutionResult → M (World S) Dict
  finish run job r =
      lift (validate_execution_result r run.task_name run.asset_plan)
      >> store run job r run.asset_plan
      >>= λ kept.
          (let result = result_of run env.worker_finished_at r kept.1 in
            save_job env (mark_job_succeeded env.finished_at result kept.0)
            >> refresh_runtime_aggregate env run.project_id run.runtime_version
            >> pure result)

  abbrev pub register_failed :
      Run
      → Job
      → Option ExecutionResult
      → String
      → String
      → Option AssetPlan
      → M (World S) (Unit {0})
  register_failed run job execution_result error_code error_message none = pure tt
  register_failed run job execution_result error_code error_message (some asset_plan) =
      register_generated_asset env run.project_id run.runtime_version job execution_result
        (failed_registration asset_plan)
      >>= λ a w. (
        returned tt,
        write_asset
            (record a {
              asset_metadata = merge a.asset_metadata (failed_metadata error_code error_message);
            })
            w,
      )

  abbrev pub fail_found_job :
      Run → Option ExecutionResult → String → String → Option Job → M (World S) (Unit {0})
  fail_found_job run execution_result error_code error_message none = pure tt
  fail_found_job run execution_result error_code error_message (some job) =
      register_failed run job execution_result error_code error_message run.asset_plan
      >> save_job env (mark_job_failed env.finished_at error_code error_message job)
      >> pure tt

  -- The `except` block up to its commit.
  abbrev pub handle : Run → Option ExecutionResult → String × String → M (World S) (Unit {0})
  handle run execution_result (error_code, error_message) = get_job env run.job_id >>= λ found.
      fail_found_job run execution_result error_code error_message found
      >> update_runtime_status env run.project_id run.runtime_version (some "failed")
          (some error_code) (some error_message)
      >> refresh_runtime_aggregate env run.project_id run.runtime_version

  -- The exception goes on, or else the one that the block raised itself, and then nothing is kept.
  abbrev pub recover : Run → Option ExecutionResult → Exn → World S → Outcome Dict × World S
  recover run execution_result e w =
      let (handled, after) = handle run execution_result (extract_error_details e) w in
      elim handled [ returned _ ↦ (raised e, after) | raised f ↦ (raised f, rolled_back w after) ]

  unfoldable pub run_job :
      (Job → Run → World S → Outcome ExecutionResult) → Run → World S → Outcome Dict × World S
  run_job execute run w =
      let (started, w1) = start run w in
      elim started [
        | raised e ↦ recover run none e (rolled_back w w1)
        | returned job ↦ elim (execute job run w1) [
          | raised e ↦ recover run none e w1
          | returned r ↦
              let (finished, w2) = finish run job r w1 in
              elim finished [
                | returned result ↦ (returned result, w2)
                | raised e ↦ recover run (some r) e (rolled_back w1 w2)
              ]
        ]
      ]
