-- ===== src/Runtime/Terminal.antt =====
-- The rows of jobs that have ended, across the calls of a history.
use ai_video_replication.Common.{
  ◌≡◌, refl, inl, inr, Bool, true, false, some, List, [], ◌∷◌, String, ◌==◌, eq_iff, arith, find,
  all, find-write, find-append, Bool-cases, update_where, not,
}
use ai_video_replication.Store.{RuntimeJob, Db, commit, commit_plain}
use ai_video_replication.Jobs
use ai_video_replication.Jobs.Effects as JobEffects
use ai_video_replication.Jobs.Cancels.{mark_cancel_requested_kept}
use ai_video_replication.Workers
use ai_video_replication.Workers.Effects as WorkerEffects
use ai_video_replication.Services.Schemas.{World}
use ai_video_replication.Services.Claim as Claim
use ai_video_replication.Services.Heartbeat as Heartbeat
use ai_video_replication.Services.Complete as Complete
use ai_video_replication.Services.Fail as Fail
use ai_video_replication.Services.Claim.Effects as ClaimEffects
use ai_video_replication.Services.Heartbeat.Progress as HeartbeatProgress
use ai_video_replication.Services.Heartbeat.Effects as HeartbeatEffects
use ai_video_replication.Services.Complete.Effects as CompleteEffects
use ai_video_replication.Services.Fail.Effects as FailEffects
use ai_video_replication.Runtime.Invariant.{Inv}
use ai_video_replication.Runtime.Invariant.Ready.{Enrolled-Ready}
use ai_video_replication.Runtime.Invariant.Claims.{offered-row}
use ai_video_replication.Runtime.Steps.{Call, step, run, empty_db}
use ai_video_replication.Runtime.Histories.{step-Inv, run-Inv, empty-Inv}

-- `mark_cancelled` and `mark_superseded` do not look at the status they replace.
abbrev pub overwrites : Call → Bool
overwrites (Call.cancels _ _ _) = true
overwrites (Call.supersedes _ _) = true
overwrites _ = false

module _ (k : String) (job : RuntimeJob) (ended : Jobs.is_terminal job.job_status ≡ true) where
  -- A write to a row that has not ended is a write to another job.
  write-kept :
      (j : String) (f : RuntimeJob → RuntimeJob) (jobs : List RuntimeJob) (row : RuntimeJob)
      → ((b : RuntimeJob) → RuntimeJob.job_id (f b) ≡ RuntimeJob.job_id b)
      → find (Jobs.has_id j) jobs ≡ some row
      → Jobs.is_terminal row.job_status ≡ false
      → find (Jobs.has_id k) jobs ≡ some job
      → find (Jobs.has_id k) (update_where (Jobs.has_id j) f jobs) ≡ some job
  write-kept j f jobs row keep e live found =
      rw (find-write (λ b. b.job_id) j k f jobs row keep e) (elim (Bool-cases (j == k)) [
        | inl same ↦
            let at_k : find (Jobs.has_id k) jobs ≡ some row = rw ((eq_iff j k).0 same) at e in
            let clash : job ≡ row = cc (at_k, found) in absurd (ground (arith, clash))
        | inr other ↦ rw other found
      ])

  claimable_live :
      (c : RuntimeJob)
      → Jobs.is_claimable c.job_status ≡ true
      → Jobs.is_terminal c.job_status ≡ false
  claimable_live c h = ground arith

  runnable_live :
      (c : RuntimeJob) → Jobs.can_run c.job_status ≡ true → Jobs.is_terminal c.job_status ≡ false
  runnable_live c h = ground arith

  step-kept :
      (env : World) (call : Call) (db : Db)
      → overwrites call ≡ false
      → Inv db
      → find (Jobs.has_id k) db.jobs ≡ some job
      → find (Jobs.has_id k) (step env call db).jobs ≡ some job
  unfolding step Claim.claim_job Heartbeat.heartbeat Complete.complete_job Fail.fail_job
  step-kept env (Call.claims r) db _ v found =
      commit (λ d. find (Jobs.has_id k) d.jobs ≡ some job) Claim.map_repository_value_error
        (Claim.claim_body env r) db found
        λ o db' e.
          let c = ClaimEffects.claim_body_lem env r db db' o e in
          let d = Enrolled-Ready env r db c.worker c.between c.enrolled v in
          elim c.outcome [
            | inl (_, _, x, s) ↦ rw (s.after, d.jobs) found
            | inr (took, offer, t) ↦
                rw (t.jobs, d.jobs)
                  (write-kept took.job_id (ClaimEffects.taken env r took) db.jobs took (λ b. refl)
                    (offered-row env r db took offer v) (claimable_live took t.was_claimable) found)
          ]
  step-kept env (Call.beats r) db _ v found =
      commit (λ d. find (Jobs.has_id k) d.jobs ≡ some job) Heartbeat.map_repository_value_error
        (Heartbeat.heartbeat_body env r) db found
        λ o db' e.
          let c = HeartbeatEffects.heartbeat_body_lem env r db db' o e in
          elim c.outcome [
            | inl (_, _, same) ↦ rw same found
            | inr (_, _, _, after) ↦ rw after (
                write-kept r.job_id (HeartbeatProgress.run_job env) db.jobs c.job (λ b. refl)
                  c.holder.job_row.found c.holder.not_terminal found)
          ]
  step-kept env (Call.completes r) db _ v found =
      commit (λ d. find (Jobs.has_id k) d.jobs ≡ some job) Complete.map_repository_value_error
        (Complete.complete_body env r) db found
        λ o db' e.
          let c = CompleteEffects.complete_body_lem env r db db' o e in
          rw c.jobs (
            write-kept r.job_id (CompleteEffects.succeeded_job env r) db.jobs c.holder.job
              (λ b. refl) c.holder.job_row.found c.holder.not_terminal found)
  step-kept env (Call.fails r) db _ v found =
      commit (λ d. find (Jobs.has_id k) d.jobs ≡ some job) Fail.map_repository_value_error
        (Fail.fail_body env r) db found
        λ o db' e.
          let c = FailEffects.fail_body_lem env r db db' o e in
          rw c.jobs (
            write-kept r.job_id (FailEffects.failed_job env r) db.jobs c.holder.job (λ b. refl)
              c.holder.job_row.found c.holder.not_terminal found)
  step-kept env (Call.creates payload) db _ v found =
      commit_plain (λ d. find (Jobs.has_id k) d.jobs ≡ some job)
        (Jobs.create_job env.utcnow payload) db found
        λ new db' e.
          let x = JobEffects.create_job_lem env.utcnow payload new db db' e in
          rw x.2 (ground (arith, find-append (Jobs.has_id k) db.jobs new))
  step-kept env (Call.requests_cancel j reason) db _ v found =
      commit_plain (λ d. find (Jobs.has_id k) d.jobs ≡ some job)
        (Jobs.mark_cancel_requested env.utcnow j reason (some env.now)) db found
        λ new db' e.
          elim (mark_cancel_requested_kept env.utcnow j reason (some env.now) db db' new e) [
            | inl same ↦ rw same found
            | inr (x, live) ↦ rw x.after (
                write-kept j (Jobs.cancel_requested reason (some env.now) env.utcnow) db.jobs x.row
                  (λ b. refl) x.is_row.found live found)
          ]
  step-kept env (Call.sets_health w s) db _ v found =
      commit_plain (λ d. find (Jobs.has_id k) d.jobs ≡ some job)
        (Workers.set_health_status env.utcnow w s (some env.now)) db found
        λ new db' e.
          rw (WorkerEffects.set_health_status_lem env.utcnow w s (some env.now) db db' new e).after
            found
  step-kept env (Call.cancels j t w) db calm v found = cc
  step-kept env (Call.supersedes j by) db calm v found = cc

  run-kept :
      (h : List (World × Call)) (db : Db)
      → all (λ entry. not (overwrites entry.1)) h ≡ true
      → Inv db
      → find (Jobs.has_id k) db.jobs ≡ some job
      → find (Jobs.has_id k) (run h db).jobs ≡ some job
  unfolding run
  run-kept [] db calm v found = found
  run-kept ((env, call) ∷ rest) db calm v found =
      run-kept rest (step env call db) (ground arith) (step-Inv env call db v)
        (step-kept env call db (ground arith) v found)

-- Once a job has reached a terminal status in a history from the empty database, its row stays as it
-- is whatever calls follow, as long as none of them is mark_cancelled or mark_superseded.
pub run-terminal :
    (before later : List (World × Call)) (job_id : String) (job : RuntimeJob)
    → find (Jobs.has_id job_id) (run before empty_db).jobs ≡ some job
    → Jobs.is_terminal job.job_status ≡ true
    → all (λ entry. not (overwrites entry.1)) later ≡ true
    → find (Jobs.has_id job_id) (run later (run before empty_db)).jobs ≡ some job
run-terminal before later k job found ended calm =
    run-kept k job ended later (run before empty_db) calm (run-Inv before empty_db empty-Inv) found
