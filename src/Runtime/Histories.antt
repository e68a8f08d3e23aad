-- ===== src/Runtime/Histories.antt =====
-- Histories from an empty database, and the invariant along them.
use ai_video_replication.Common.{
  ◌≤◌, ◌≡◌, refl, pos, ◌≤ℤ◌, inl, inr, true, some, none, List, [], ◌∷◌, String, arith, count, find,
}
use ai_video_replication.Enums.{JobStatus}
use ai_video_replication.Store.{RuntimeJob, WorkerRegistry, Db, commit, commit_plain}
use ai_video_replication.Jobs
use ai_video_replication.Jobs.Effects as JobEffects
use ai_video_replication.Jobs.Cancels.{
  mark_cancel_requested_lem, mark_cancelled_lem, mark_superseded_lem,
}
use ai_video_replication.Leases
use ai_video_replication.Workers
use ai_video_replication.Workers.Effects as WorkerEffects
use ai_video_replication.Services.Schemas.{World}
use ai_video_replication.Services.Claim as Claim
use ai_video_replication.Services.Heartbeat as Heartbeat
use ai_video_replication.Services.Complete as Complete
use ai_video_replication.Services.Fail as Fail
use ai_video_replication.Services.Claim.Effects.{claim_body_lem}
use ai_video_replication.Services.Heartbeat.Effects.{heartbeat_body_lem}
use ai_video_replication.Services.Complete.Effects.{complete_body_lem}
use ai_video_replication.Services.Fail.Effects.{fail_body_lem}
use ai_video_replication.Runtime.View.{held_by, lease_room-le}
use ai_video_replication.Runtime.Invariant.{Inv, Fits-at}
use ai_video_replication.Runtime.Invariant.Ends.{complete-Inv, fail-Inv}
use ai_video_replication.Runtime.Invariant.Beats.{heartbeat-Inv}
use ai_video_replication.Runtime.Invariant.Claims.{claim-Inv}
use ai_video_replication.Runtime.Invariant.Operators.{unqueued-Inv, created-Inv, health-Inv}
use ai_video_replication.Runtime.Steps.{Call, step, run, empty_db}

pub step-Inv : (env : World) (call : Call) (db : Db) → Inv db → Inv (step env call db)
unfolding step Claim.claim_job Heartbeat.heartbeat Complete.complete_job Fail.fail_job
step-Inv env (Call.claims r) db v =
    commit Inv Claim.map_repository_value_error (Claim.claim_body env r) db v
      λ o db' e. claim-Inv env r db db' o (claim_body_lem env r db db' o e) v
step-Inv env (Call.beats r) db v =
    commit Inv Heartbeat.map_repository_value_error (Heartbeat.heartbeat_body env r) db v
      λ o db' e. heartbeat-Inv env r db db' o (heartbeat_body_lem env r db db' o e) v
step-Inv env (Call.completes r) db v =
    commit Inv Complete.map_repository_value_error (Complete.complete_body env r) db v
      λ o db' e. complete-Inv env r db db' o (complete_body_lem env r db db' o e) v
step-Inv env (Call.fails r) db v =
    commit Inv Fail.map_repository_value_error (Fail.fail_body env r) db v
      λ o db' e. fail-Inv env r db db' o (fail_body_lem env r db db' o e) v
step-Inv env (Call.creates payload) db v =
    commit_plain Inv (Jobs.create_job env.utcnow payload) db v λ job db' e.
      let x = JobEffects.create_job_lem env.utcnow payload job db db' e in
      created-Inv db db' job x.1 x.2 v
step-Inv env (Call.requests_cancel k reason) db v =
    commit_plain Inv (Jobs.mark_cancel_requested env.utcnow k reason (some env.now)) db v
      λ job db' e.
        elim (mark_cancel_requested_lem env.utcnow k reason (some env.now) db db' job e) [
          | inl same ↦ rw same v
          | inr x ↦
              unqueued-Inv k (Jobs.cancel_requested reason (some env.now) env.utcnow) db db' job
                (λ b. refl) (λ b. refl) x v
        ]
step-Inv env (Call.cancels k t w) db v =
    commit_plain Inv (Jobs.mark_cancelled env.utcnow k t w (some env.now) none none) db v
      λ job db' e.
        unqueued-Inv k (Jobs.finished JobStatus.cancelled (some env.now) env.utcnow none none) db
          db' job (λ b. refl) (λ b. refl)
          (mark_cancelled_lem env.utcnow k t w (some env.now) none none db db' job e) v
step-Inv env (Call.supersedes k by) db v =
    commit_plain Inv (Jobs.mark_superseded env.utcnow k by (some env.now) none none) db v
      λ job db' e.
        unqueued-Inv k (Jobs.superseded by (some env.now) env.utcnow none none) db db' job
          (λ b. refl) (λ b. refl)
          (mark_superseded_lem env.utcnow k by (some env.now) none none db db' job e) v
step-Inv env (Call.sets_health k s) db v =
    commit_plain Inv (Workers.set_health_status env.utcnow k s (some env.now)) db v λ w db' e.
      health-Inv k s env.now db db' w
        (WorkerEffects.set_health_status_lem env.utcnow k s (some env.now) db db' w e) v

pub run-Inv : (h : List (World × Call)) (db : Db) → Inv db → Inv (run h db)
unfolding run
run-Inv [] db v = v
run-Inv ((env, call) ∷ rest) db v = run-Inv rest (step env call db) (step-Inv env call db v)

pub empty-Inv : Inv empty_db
empty-Inv = record {
  unique = λ j. omega arith;
  exclusive = λ j. omega arith;
  counted = λ w. refl;
  within = λ w. tt;
}

-- After any history of calls from the empty database, no job has two active leases.
pub run-exclusive :
    (h : List (World × Call)) (job_id : String)
    → count (Leases.active_on job_id) (run h empty_db).leases ≤ 1
run-exclusive h j =
    let db = run h empty_db in
    omega (arith, (run-Inv h empty_db empty-Inv).exclusive j, lease_room-le j db.jobs)

-- After any history of calls from the empty database, a job whose status allows a claim has no active lease.
pub run-claimable :
    (h : List (World × Call)) (job_id : String) (job : RuntimeJob)
    → find (Jobs.has_id job_id) (run h empty_db).jobs ≡ some job
    → Jobs.is_claimable job.job_status ≡ true
    → count (Leases.active_on job_id) (run h empty_db).leases ≡ 0
run-claimable h j job found free = ground (arith, (run-Inv h empty_db empty-Inv).exclusive j)

-- After any history of calls from the empty database, a worker's current_job_count is the number of its
-- active leases, and is at most its max_concurrency.
pub run-capacity :
    (h : List (World × Call)) (worker_id : String) (w : WorkerRegistry)
    → find (Workers.has_id worker_id) (run h empty_db).workers ≡ some w
    → (w.current_job_count ≡ count (held_by worker_id) (run h empty_db).leases)
      × (pos w.current_job_count ≤ℤ w.max_concurrency)
run-capacity h k w found =
    let v = run-Inv h empty_db empty-Inv in
    (ground (arith, v.counted k), Fits-at k (run h empty_db).workers w found (v.within k))
