-- ===== src/Tasks/Parts.antt =====
-- The parts of a run before and after the executor: what they leave of the job's row.
use ai_video_replication.Common.{
  ◌≡◌, refl, arith, Bool, true, any, pos, ◌+ℤ◌, Option, none, some, String, find,
}
use ai_video_replication.Store.{int_fits, text_fits, opt_text_fits}
use ai_video_replication.Projects.{Database}
use ai_video_replication.Tasks.Assets.{is_project, target_of}
use ai_video_replication.Common.Json.{str}
use ai_video_replication.Aggregate.{Job}
use ai_video_replication.Projects.Session.{Outcome, returned}
use ai_video_replication.Tasks.{ExecutionResult, AssetPlan, World, Surroundings}
use ai_video_replication.Tasks.Marks.{
  is_job, mark_job_running, mark_job_failed, update_runtime_status, refresh_runtime_aggregate,
  write_job, row_fits,
}
use ai_video_replication.Tasks.Run.{Run, start, register_failed, failed_registration, handle}
use ai_video_replication.Tasks.Effects.{
  find-replaced, find-has_id, Calm, update_runtime_status-Calm, refresh_runtime_aggregate-Calm,
  get_job-finds, Selectable, place_fits, register_generated_asset-Calm,
}

-- A step that came to its end with the job's row as it is given.
pub record Left {S A : Type 0} (id : String) (a : A) (j : Job) (r : Outcome A × World S)
    : Type 0 where
  pub ran : r.0 ≡ returned a
  pub found : find (is_job id) r.1.db.jobs ≡ some j

module _ {S : Type 0} (env : Surroundings S) (run : Run) where
  abbrev pub marked : Job → Job
  marked job = mark_job_running env.started_at run.task_name job

  marked-fits :
      (job : Job) → int_fits (job.attempt_count +ℤ pos 1) ≡ true → row_fits (marked job) ≡ true
  unfolding row_fits mark_job_running opt_text_fits
  marked-fits job n = rw n refl

  -- Whether the row fits that the failure handler writes for an asset
  abbrev pub failed_row_fits :
      Database → String → Job → Option ExecutionResult → Option AssetPlan → Bool
  failed_row_fits db v job x none = true
  failed_row_fits db v job x (some plan) =
      place_fits (target_of env db run.project_id v job x plan.asset_type plan.filename)
        (failed_registration plan)

-- What the failure handler needs to register the asset of a run: the project and the sequence are
-- rows, and what is written fits the columns.
pub record CanRegister {S : Type 0} (env : Surroundings S) (run : Run) (pid : String) (job : Job)
    (x : Option ExecutionResult) (db : Database) : Type 0 where
  pub project : any (is_project pid) db.projects ≡ true
  pub sequence : Selectable env db job x
  pub fits : failed_row_fits env run db run.runtime_version job x run.asset_plan ≡ true

module _ {S : Type 0} (env : Surroundings S) (run : Run) (id pid : String) where
  pub start-Left :
      (job : Job) (w : World S)
      → env.uuid (str run.job_id) ≡ some id
      → env.uuid (str run.project_id) ≡ some pid
      → find (is_job id) w.db.jobs ≡ some job
      → int_fits (job.attempt_count +ℤ pos 1) ≡ true
      → Left id (marked env run job) (marked env run job) (start env run w)
  start-Left job w hj hp e n =
      let fits = marked-fits env run job n in
      let w1 : World S = record w { db = write_job (marked env run job) w.db } in
      let c1 =
        update_runtime_status-Calm env run.project_id run.runtime_version pid (some "running") none
          none w1 hp in
      let w2 =
        (update_runtime_status env run.project_id run.runtime_version (some "running") none none
          w1).1 in
      let c2 = refresh_runtime_aggregate-Calm env run.project_id run.runtime_version pid w2 hp in
      let ran0 : (start env run w).0 ≡ returned (marked env run job) =
        ground (arith, get_job-finds env run.job_id id w hj, e, fits, c1.ran, c2.ran) in
      let same : (start env run w).1
          ≡ (refresh_runtime_aggregate env run.project_id run.runtime_version w2).1 =
        ground (arith, get_job-finds env run.job_id id w hj, e, fits, c1.ran, c2.ran) in
      record {
        ran = ran0;
        found =
            rw (same, c2.jobs_same, c1.jobs_same)
              (find-replaced id (marked env run job) w.db.jobs job e
                (unfold mark_job_running in find-has_id id w.db.jobs job e));
      }

  register_failed-Calm :
      (job : Job) (x : Option ExecutionResult) (code message : String) (plan : Option AssetPlan)
      (w : World S)
      → env.uuid (str run.project_id) ≡ some pid
      → any (is_project pid) w.db.projects ≡ true
      → Selectable env w.db job x
      → failed_row_fits env run w.db run.runtime_version job x plan ≡ true
      → Calm (register_failed env run job x code message plan w) w
  register_failed-Calm job x code message none w hp p s f = record {
    answer = tt;
    ran = refl;
    jobs_same = refl;
  }
  register_failed-Calm job x code message (some plan) w hp p s f =
      let c =
        register_generated_asset-Calm env run.project_id run.runtime_version pid job x
          (failed_registration plan) w hp p s f in
      record {
        answer = tt;
        ran = ground (arith, c.ran);
        jobs_same = ground (arith, c.ran, c.jobs_same);
      }

  failed-fits :
      (job : Job) (code message : String)
      → int_fits job.attempt_count ≡ true
      → text_fits 100 code ≡ true
      → row_fits (mark_job_failed env.finished_at code message job) ≡ true
  unfolding row_fits mark_job_failed opt_text_fits
  failed-fits job code message n t = rw (n, t) refl

  pub handle-Left :
      (job : Job) (x : Option ExecutionResult) (code message : String) (w : World S)
      → env.uuid (str run.job_id) ≡ some id
      → env.uuid (str run.project_id) ≡ some pid
      → CanRegister env run pid job x w.db
      → int_fits job.attempt_count ≡ true
      → text_fits 100 code ≡ true
      → find (is_job id) w.db.jobs ≡ some job
      → Left id tt
          (mark_job_failed env.finished_at code message job)
          (handle env run x (code, message) w)
  handle-Left job x code message w hj hp s n t e =
      let c0 =
        register_failed-Calm job x code message run.asset_plan w hp s.project s.sequence s.fits in
      let fits = failed-fits job code message n t in
      let w0 = (register_failed env run job x code message run.asset_plan w).1 in
      let failed = mark_job_failed env.finished_at code message job in
      let w1 : World S = record w0 { db = write_job failed w0.db } in
      let c1 =
        update_runtime_status-Calm env run.project_id run.runtime_version pid (some "failed")
          (some code) (some message) w1 hp in
      let w2 =
        (update_runtime_status env run.project_id run.runtime_version (some "failed") (some code)
          (some message) w1).1 in
      let c2 = refresh_runtime_aggregate-Calm env run.project_id run.runtime_version pid w2 hp in
      let ran0 : (handle env run x (code, message) w).0 ≡ returned tt =
        ground (arith, get_job-finds env run.job_id id w hj, e, fits, c0.ran, c1.ran, c2.ran) in
      let same : (handle env run x (code, message) w).1
          ≡ (refresh_runtime_aggregate env run.project_id run.runtime_version w2).1 =
        ground (arith, get_job-finds env run.job_id id w hj, e, fits, c0.ran, c1.ran, c2.ran) in
      record {
        ran = ran0;
        found =
            rw (same, c2.jobs_same, c1.jobs_same, c0.jobs_same)
              (find-replaced id failed w.db.jobs job e
                (unfold mark_job_failed in find-has_id id w.db.jobs job e));
      }
