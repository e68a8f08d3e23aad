-- ===== src/Runtime/Endings.antt =====
-- What complete_job and fail_job have found and left when they return.
use ai_video_replication.Common.{◌≡◌, refl, false, none, some, find, find-update_same}
use ai_video_replication.Enums.{JobStatus, AttemptStatus}
use ai_video_replication.Store.{RuntimeJob, JobAttempt, Db, ok, returned}
use ai_video_replication.Jobs
use ai_video_replication.Attempts
use ai_video_replication.Leases
use ai_video_replication.Services.Schemas.{World, CompleteJobRequest, EndJobResult}
use ai_video_replication.Services.Complete as Complete
use ai_video_replication.Services.Fail as Fail
use ai_video_replication.Services.Complete.Effects as CompleteEffects
use ai_video_replication.Services.Fail.Effects as FailEffects

-- A job that has succeeded, with its attempt.
pub record Succeeded (env : World) (r : CompleteJobRequest) (db : Db) (res : EndJobResult)
    (db' : Db) : Type 0 where
  pub job : RuntimeJob
  pub job_found : find (Jobs.has_id r.job_id) db.jobs ≡ some job
  pub by_token : job.active_claim_token ≡ some r.claim_token
  pub by_worker : job.claimed_by_worker_id ≡ some r.worker_id
  pub not_ended : Jobs.is_terminal job.job_status ≡ false
  pub job' : RuntimeJob
  pub written : find (Jobs.has_id r.job_id) db'.jobs ≡ some job'
  pub status : job'.job_status ≡ JobStatus.succeeded
  pub finished : job'.finished_at ≡ some env.now
  pub no_end : job'.lease_expires_at ≡ none
  pub attempt : JobAttempt
  pub attempt_written : find (Attempts.has_id r.attempt_id) db'.attempts ≡ some attempt
  pub attempt_status : attempt.attempt_status ≡ AttemptStatus.completed
  pub answer_status : res.job_status ≡ job'.job_status
  pub answer_attempt : res.attempt_status ≡ attempt.attempt_status

Completed-Succeeded :
    (env : World) (r : CompleteJobRequest) (db db' : Db) (res : EndJobResult)
    → CompleteEffects.Completed env r db res db'
    → Succeeded env r db res db'
Completed-Succeeded env r db db' res c = record {
  job = c.holder.job;
  job_found = c.holder.job_row.found;
  by_token = c.holder.owned.by_token;
  by_worker = c.holder.owned.by_worker;
  not_ended = c.holder.not_terminal;
  job' = CompleteEffects.succeeded_job env r c.holder.job;
  written = rw c.jobs (
      find-update_same (Jobs.has_id r.job_id) (CompleteEffects.succeeded_job env r) db.jobs
        c.holder.job (λ b. refl) c.holder.job_row.found);
  status = refl;
  finished = refl;
  no_end = refl;
  attempt = CompleteEffects.completed_attempt env r c.holder.attempt;
  attempt_written = rw c.attempts (
      find-update_same (Attempts.has_id r.attempt_id) (CompleteEffects.completed_attempt env r)
        db.attempts c.holder.attempt (λ b. refl) c.holder.attempt_row.found);
  attempt_status = refl;
  answer_status = rw c.answer refl;
  answer_attempt = rw c.answer refl;
}

-- When complete_job returns, the job was held by the caller and had not ended; it has now succeeded,
-- its attempt is completed, and the answer reports both.
pub complete_job-Succeeded :
    (env : World) (r : CompleteJobRequest) (db db' : Db) (res : EndJobResult)
    → Complete.complete_job env r db ≡ (ok res, db')
    → Succeeded env r db res db'
unfolding Complete.complete_job
complete_job-Succeeded env r db db' res eq = Completed-Succeeded env r db db' res (
    CompleteEffects.complete_body_lem env r db db' res
      (returned Complete.map_repository_value_error (Complete.complete_body env r) db db' res eq))
