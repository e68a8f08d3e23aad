-- ===== src/Runtime/Progress.antt =====
-- What complete_job asks for, and the database that it leaves when it is given.
use ai_video_replication.Common.{
  ◌≡◌, refl, ◌∙◌, true, false, some, arith, update_where, find-update_same, count-update_keep,
  or_str,
}
use ai_video_replication.Store.{
  RuntimeJob, JobAttempt, WorkerLease, WorkerRegistry, Db, ok, attempt_checks, worker_checks,
  job_fits, attempt_fits, lease_fits, worker_fits, worker_refs_fit, scalar-of_one,
}
use ai_video_replication.Jobs
use ai_video_replication.Jobs.Effects as JobEffects
use ai_video_replication.Attempts
use ai_video_replication.Attempts.Effects as AttemptEffects
use ai_video_replication.Leases
use ai_video_replication.Leases.Effects as LeaseEffects
use ai_video_replication.Workers
use ai_video_replication.Workers.Effects as WorkerEffects
use ai_video_replication.Services.Schemas.{World, CompleteJobRequest}
use ai_video_replication.Services.Complete.{
  check_request, is_active_attempt, report, complete_result, complete_body, complete_job,
}
use ai_video_replication.Services.Complete.Effects.{
  completed_attempt, succeeded_job, released_lease, vacated,
}
use ai_video_replication.Runtime.Runs.{
  is_same, same, mark_completed-runs, mark_succeeded-runs, release_lease-runs,
  decrement_current_job_count-runs, mark_seen-runs,
}

-- The request names the job, the attempt and the lease that the worker holds, and what it
-- writes passes the checks of the tables and fits their columns.
pub record CanComplete (env : World) (r : CompleteJobRequest) (db : Db) : Type 0 where
  pub lease : WorkerLease
  pub lease_held : LeaseEffects.Holds db r.claim_token lease
  pub lease_job : lease.job_id ≡ r.job_id
  pub lease_worker : lease.worker_id ≡ r.worker_id
  pub lease_attempt : lease.attempt_id ≡ some r.attempt_id
  pub job : RuntimeJob
  pub job_row : JobEffects.IsRow db r.job_id job
  pub owned : JobEffects.IsOwned job r.claim_token r.worker_id
  pub not_terminal : Jobs.is_terminal job.job_status ≡ false
  pub attempt : JobAttempt
  pub attempt_row : AttemptEffects.IsRow db r.attempt_id attempt
  pub attempt_job : attempt.job_id ≡ r.job_id
  pub attempt_token : attempt.claim_token ≡ some r.claim_token
  pub attempt_worker : attempt.worker_id ≡ some r.worker_id
  pub attempt_active : is_active_attempt attempt.attempt_status ≡ true
  pub figures : attempt_checks (completed_attempt env r attempt) ≡ true
  pub worker : WorkerRegistry
  pub worker_row : WorkerEffects.IsRow db r.worker_id worker
  pub size : worker_checks worker ≡ true
  pub attempt_columns : attempt_fits (completed_attempt env r attempt) ≡ true
  pub job_columns : job_fits (succeeded_job env r job) ≡ true
  pub lease_columns : lease_fits (released_lease env lease) ≡ true
  pub worker_columns : worker_fits (Workers.decremented 1 worker) ≡ true

check_request-passes :
    (env : World) (r : CompleteJobRequest) (db : Db)
    → CanComplete env r db
    → check_request r db ≡ ok (tt, db)
unfolding check_request Leases.get_active_lease_by_claim_token Jobs.get_by_job_id
    Attempts.get_attempt_by_attempt_id
check_request-passes env r db c = ground (
  arith,
  scalar-of_one (Leases.active_with r.claim_token) db.leases c.lease c.lease_held.one
      c.lease_held.found,
  same c.lease.job_id r.job_id c.lease_job,
  same c.lease.worker_id r.worker_id c.lease_worker,
  is_same c.lease.attempt_id r.attempt_id c.lease_attempt,
  scalar-of_one (Jobs.has_id r.job_id) db.jobs c.job c.job_row.one c.job_row.found,
  is_same c.job.active_claim_token r.claim_token c.owned.by_token,
  is_same c.job.claimed_by_worker_id r.worker_id c.owned.by_worker,
  c.not_terminal,
  scalar-of_one (Attempts.has_id r.attempt_id) db.attempts c.attempt c.attempt_row.one
      c.attempt_row.found,
  same c.attempt.job_id r.job_id c.attempt_job,
  is_same c.attempt.claim_token r.claim_token c.attempt_token,
  is_same c.attempt.worker_id r.worker_id c.attempt_worker,
  c.attempt_active,
)

-- The database that a completion leaves.
abbrev pub completed_db : World → CompleteJobRequest → Db → Db
completed_db env r db = record {
  jobs = update_where (Jobs.has_id r.job_id) (succeeded_job env r) db.jobs;
  attempts = update_where (Attempts.has_id r.attempt_id) (completed_attempt env r) db.attempts;
  leases = update_where (Leases.active_with r.claim_token) (released_lease env) db.leases;
  workers = vacated env r.worker_id db.workers;
}

complete_body-runs :
    (env : World) (r : CompleteJobRequest) (db : Db) (c : CanComplete env r db)
    → complete_body env r db
      ≡ ok (
        complete_result env r
            (succeeded_job env r c.job)
            (completed_attempt env r c.attempt)
            (released_lease env c.lease)
            (Workers.decremented 1 c.worker),
        completed_db env r db,
      )
unfolding complete_body worker_checks worker_fits worker_refs_fit
complete_body-runs env r db c =
    let code = or_str r.completion_status "SUCCEEDED" in
    let d1 : Db = record db {
      attempts = update_where (Attempts.has_id r.attempt_id) (completed_attempt env r) db.attempts;
    } in
    let d2 : Db = record d1 {
      jobs = update_where (Jobs.has_id r.job_id) (succeeded_job env r) db.jobs;
    } in
    let d3 : Db = record d2 {
      leases = update_where (Leases.active_with r.claim_token) (released_lease env) db.leases;
    } in
    let d4 : Db = record d3 {
      workers = update_where (Workers.has_id r.worker_id) (Workers.decremented 1) db.workers;
    } in
    let p0 = check_request-passes env r db c in
    let p1 =
      mark_completed-runs env.utcnow r.attempt_id code (some env.now) (report r) db c.attempt
        c.attempt_row c.attempt_columns c.figures in
    let p2 =
      mark_succeeded-runs env.utcnow r.job_id r.claim_token r.worker_id (some env.now) (some code)
        r.terminal_reason d1 c.job
        (record { one = c.job_row.one; found = c.job_row.found; id = c.job_row.id }) c.owned
        c.job_columns in
    let p3 =
      release_lease-runs env.utcnow r.claim_token r.worker_id (some env.now) d2 c.lease
        (record { one = c.lease_held.one; found = c.lease_held.found; token = c.lease_held.token })
        c.lease_worker c.lease_columns in
    let p4 =
      decrement_current_job_count-runs r.worker_id 1 d3 c.worker
        (record { one = c.worker_row.one; found = c.worker_row.found; id = c.worker_row.id })
        c.worker_columns c.size in
    let p5 =
      mark_seen-runs env.utcnow r.worker_id (some env.now) d4 (Workers.decremented 1 c.worker)
        (count-update_keep (Workers.has_id r.worker_id) (Workers.has_id r.worker_id)
            (Workers.decremented 1) db.workers (λ b. refl)
          ∙ c.worker_row.one)
        (find-update_same (Workers.has_id r.worker_id) (Workers.decremented 1) db.workers c.worker
          (λ b. refl) c.worker_row.found)
        c.worker_row.id c.worker_columns c.size in
    ground (arith, p0, p1, p2, p3, p4, p5)

-- A worker that holds a job under an active lease, with an attempt that is under way, can complete it:
-- complete_job returns, and leaves exactly the job succeeded, the attempt completed, the lease
-- released and the worker with one job less.
pub complete_job-runs :
    (env : World) (r : CompleteJobRequest) (db : Db) (c : CanComplete env r db)
    → complete_job env r db ≡ (
      ok (
          complete_result env r
            (succeeded_job env r c.job)
            (completed_attempt env r c.attempt)
            (released_lease env c.lease)
            (Workers.decremented 1 c.worker)),
      completed_db env r db,
    )
unfolding complete_job
complete_job-runs env r db c = ground (arith, complete_body-runs env r db c)
