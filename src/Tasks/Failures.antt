-- ===== src/Tasks/Failures.antt =====
-- Runs of a task that fail.
use ai_video_replication.Common.{
  ◌≡◌, ◌≢◌, refl, arith, true, false, pos, ◌+ℤ◌, inl, inr, Option, none, some, String, find,
}
use ai_video_replication.Common.Json.{Json, str}
use ai_video_replication.Store.{int_fits}
use ai_video_replication.Aggregate.{Job}
use ai_video_replication.Projects.Session.{
  Exn, failure, Outcome, returned, raised, ◌>>=◌, and_then, need,
}
use ai_video_replication.Tasks.{ExecutionResult, AssetPlan, World, Surroundings}
use ai_video_replication.Tasks.Content.{
  stripped_status, validate_execution_result, extract_error_details,
}
use ai_video_replication.Tasks.Assets.{
  bad_uuid, selected_sequence, resolve_asset_sequence_id, target_of,
}
use ai_video_replication.Tasks.Marks.{is_job, mark_job_running, row_fits, row_error}
use ai_video_replication.Tasks.Materialize.{place, register_generated_asset}
use ai_video_replication.Tasks.Run.{
  Run, start, finish, register_failed, handle, recover, rolled_back, run_job,
}
use ai_video_replication.Tasks.Effects.{Outcome-cases, get_job-finds}
use ai_video_replication.Tasks.Parts.{marked, start-Left}
use ai_video_replication.Tasks.Stored.{status_error-none, passes, passes-status}

module _ {S : Type 0} (env : Surroundings S) (run : Run) (id pid : String) where
  pub recover-raises :
      (x : Option ExecutionResult) (e : Exn) (w : World S)
      → (f : Exn) × ((recover env run x e w).0 ≡ raised f)
  recover-raises x e w = elim (Outcome-cases (handle env run x (extract_error_details e) w).0) [
    | inl (u, h) ↦ (e, rw (recover, h) refl)
    | inr (f, h) ↦ (f, rw (recover, h) refl)
  ]

  unmarked :
      (job : Job)
      → int_fits (job.attempt_count +ℤ pos 1) ≡ false
      → row_fits (marked env run job) ≡ false
  unfolding row_fits mark_job_running
  unmarked job n = rw n refl

  -- A run of a job whose count of attempts has no room for one more raises.
  pub run_job-overflows :
      (execute : Job → Run → World S → Outcome ExecutionResult) (job : Job) (w : World S)
      → env.uuid (str run.job_id) ≡ some id
      → find (is_job id) w.db.jobs ≡ some job
      → int_fits (job.attempt_count +ℤ pos 1) ≡ false
      → (e : Exn) × ((run_job env execute run w).0 ≡ raised e)
  unfolding run_job
  run_job-overflows execute job w hj f n =
      let none_marked = unmarked job n in
      let g : (start env run w).0 ≡ row_error =
        ground (arith, get_job-finds env run.job_id id w hj, f, none_marked) in
      let (e, h) =
        recover-raises none (failure "value out of range or too long")
          (rolled_back w (start env run w).1) in
      (e, rw (run_job, g) h)

  refused :
      (r : ExecutionResult)
      → stripped_status r ≢ "succeeded"
      → (e : Exn) × (validate_execution_result r run.task_name run.asset_plan ≡ raised e)
  refused r h = elim (Outcome-cases (validate_execution_result r run.task_name run.asset_plan)) [
    | inr p ↦ p
    | inl (u, v) ↦ absurd (
        h (
          status_error-none run.task_name (stripped_status r) (
            passes-status r run.task_name run.asset_plan
              (passes r run.task_name run.asset_plan u v))))
  ]

  -- A run whose executor answers with a status other than `succeeded`, the stub's `succeeded_stub`
  -- included, raises.
  pub run_job-refuses :
      (execute : Job → Run → World S → Outcome ExecutionResult) (job : Job) (w : World S)
      (r : ExecutionResult)
      → env.uuid (str run.job_id) ≡ some id
      → env.uuid (str run.project_id) ≡ some pid
      → find (is_job id) w.db.jobs ≡ some job
      → int_fits (job.attempt_count +ℤ pos 1) ≡ true
      → execute (marked env run job) run (start env run w).1 ≡ returned r
      → stripped_status r ≢ "succeeded"
      → (e : Exn) × ((run_job env execute run w).0 ≡ raised e)
  unfolding run_job
  run_job-refuses execute job w r hj hp f n x h =
      let l = start-Left env run id pid job w hj hp f n in
      let w1 = (start env run w).1 in
      let j = marked env run job in
      let (e, v) = refused r h in
      let g : (finish env run j r w1).0 ≡ raised e = ground (arith, v) in
      let w2 : World S = rolled_back w1 (finish env run j r w1).1 in
      let t : run_job env execute run w ≡ recover env run (some r) e w2 =
        rw (run_job, l.ran, x, g) refl in
      rw t (recover-raises (some r) e w2)

  unresolved :
      (job : Job) (v : Json) (plan : AssetPlan) (w : World S)
      → env.uuid (str run.project_id) ≡ some pid
      → selected_sequence job none ≡ some v
      → env.uuid v ≡ none
      → target_of env w.db run.project_id run.runtime_version job none plan.asset_type plan.filename
        ≡ bad_uuid
  unfolding target_of resolve_asset_sequence_id
  unresolved job v plan w hp s u = rw (hp, s, u, and_then, need) refl

  -- If the job itself names a sequence that is no id and its count of attempts has room for one more, a
  -- run of it with an asset whose executor raises
  -- leaves the job running: the failure handler raises too, on the same name, and none of its writes
  -- is kept. Every table, the runtime and the assets included, is as the start of the run
  -- committed it.
  pub run_job-stuck :
      (execute : Job → Run → World S → Outcome ExecutionResult) (job : Job) (w : World S) (x : Exn)
      (v : Json) (plan : AssetPlan)
      → env.uuid (str run.job_id) ≡ some id
      → env.uuid (str run.project_id) ≡ some pid
      → find (is_job id) w.db.jobs ≡ some job
      → int_fits (job.attempt_count +ℤ pos 1) ≡ true
      → execute (marked env run job) run (start env run w).1 ≡ raised x
      → run.asset_plan ≡ some plan
      → selected_sequence job none ≡ some v
      → env.uuid v ≡ none
      → ((run_job env execute run w).0 ≡ bad_uuid)
        × (find (is_job id) (run_job env execute run w).1.db.jobs ≡ some (marked env run job))
        × ((marked env run job).status ≡ "running")
        × ((run_job env execute run w).1.db ≡ (start env run w).1.db)
  unfolding run_job
  run_job-stuck execute job w x v plan hj hp f n e p s u =
      let l = start-Left env run id pid job w hj hp f n in
      let w1 = (start env run w).1 in
      let j = marked env run job in
      let same : selected_sequence j none ≡ some v = unfold mark_job_running in s in
      let lost = unresolved j v plan w1 hp same u in
      let raises : (register_failed env run j none (extract_error_details x).0
            (extract_error_details x).1 run.asset_plan w1).0
          ≡ bad_uuid =
        rw p (unfold register_generated_asset in rw (◌>>=◌, place, lost) refl) in
      let h : (handle env run none (extract_error_details x) w1).0 ≡ bad_uuid =
        ground (arith, get_job-finds env run.job_id id w1 hj, l.found, raises) in
      let t : run_job env execute run w ≡ recover env run none x w1 = rw (run_job, l.ran, e) refl in
      rw (t, recover, h) (refl, l.found, unfold mark_job_running in refl, refl)
