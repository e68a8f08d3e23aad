-- ===== src/Services/Heartbeat/Effects.antt =====
-- What a heartbeat has found and changed when it returns.
use ai_video_replication.Common.{
  pos, leb_ℤ, ◌≡◌, refl, inl, inr, ◌⊎◌, true, false, Option, some, arith, find, update_where,
}
use ai_video_replication.Enums.{AttemptStatus}
use ai_video_replication.Store.{RuntimeJob, WorkerLease, WorkerRegistry, Db, ok, >>=-then}
use ai_video_replication.Jobs
use ai_video_replication.Leases
use ai_video_replication.Workers
use ai_video_replication.Leases.Effects as LeaseEffects
use ai_video_replication.Workers.Effects as WorkerEffects
use ai_video_replication.Services.Schemas.{HeartbeatRequest, HeartbeatResult, World}
use ai_video_replication.Services.Heartbeat.{
  check_request, mark_progress, next_end, heartbeat_result, heartbeat_body,
}
use ai_video_replication.Services.Heartbeat.Checks.{Holds, check_request_lem}
use ai_video_replication.Services.Heartbeat.Progress.{run_job, progress_by}

abbrev pub kept_lease : World → HeartbeatRequest → RuntimeJob → WorkerLease → WorkerLease
kept_lease env r job = Leases.extended (next_end env r job) (some env.now) env.utcnow

-- Every table but that of attempts after the call, in terms of the tables before it.
pub record Beaten (env : World) (r : HeartbeatRequest) (db : Db) (res : HeartbeatResult) (db' : Db)
    : Type 0 where
  pub job : RuntimeJob
  pub holder : Holds env r db job
  pub extensible : leb_ℤ holder.lease.max_extensions (pos holder.lease.extension_count) ≡ false
  pub leases :
      db'.leases ≡ update_where (Leases.active_with r.claim_token) (kept_lease env r job) db.leases
  pub job' : RuntimeJob
  pub outcome :
      ((r.mark_job_running ≡ false) × (job' ≡ job) × (db'.jobs ≡ db.jobs))
      ⊎ ((r.mark_job_running ≡ true)
          × (Jobs.can_run job.job_status ≡ true)
          × (job' ≡ run_job env job)
          × (db'.jobs ≡ update_where (Jobs.has_id r.job_id) (run_job env) db.jobs))
  pub worker : WorkerRegistry
  pub worker_found : find (Workers.has_id r.worker_id) db.workers ≡ some worker
  pub workers :
      db'.workers
      ≡ update_where
          (Workers.has_id r.worker_id)
          (Workers.seen (some env.now) env.utcnow)
          db.workers
  pub attempt_status : Option AttemptStatus
  pub answer : res ≡ heartbeat_result job' (kept_lease env r job holder.lease) attempt_status

pub heartbeat_body_lem :
    (env : World) (r : HeartbeatRequest) (db db' : Db) (res : HeartbeatResult)
    → heartbeat_body env r db ≡ ok (res, db')
    → Beaten env r db res db'
unfolding heartbeat_body
heartbeat_body_lem env r db db' res eq = >>=-then (check_request env r) _ db _ eq λ job d0 e0 k0.
    >>=-then
      (Leases.extend_lease env.utcnow r.claim_token r.worker_id (next_end env r job) (some env.now))
      _ d0 _ k0
      λ l d1 e1 k1. >>=-then (mark_progress env r job) _ d1 _ k1 λ js d2 e2 k2.
        >>=-then (Workers.mark_seen env.utcnow r.worker_id (some env.now)) _ d2 _ k2 λ w d3 e3 k3.
          let p0 = check_request_lem env r db d0 job e0 in
          let p1 =
            LeaseEffects.extend_lease_lem env.utcnow r.claim_token r.worker_id (next_end env r job)
              (some env.now) d0 d1 l e1 in
          let p2 =
            progress_by env r r.mark_job_running d1 d2 job js.0 js.1 refl
              (cc (p0.0.job_row.found, p1.0.after, p0.1)) e2 in
          let p3 = WorkerEffects.mark_seen_lem env.utcnow r.worker_id (some env.now) d2 d3 w e3 in
          let leased : p1.0.row ≡ p0.0.lease = cc (p1.0.held.found, p0.0.lease_held.found, p0.1) in
          let said : res ≡ heartbeat_result js.0 l js.1 = ground arith in
          let end : db' ≡ d3 = ground arith in
          record {
            job = job;
            holder = p0.0;
            extensible = cc (p1.2, leased);
            leases = cc (end, p3.after, p2.leases, p1.0.after, p0.1);
            job' = js.0;
            outcome = elim p2.outcome [
              | inl (m, j, e) ↦ inl (m, j, cc (e, end, p3.after, p1.0.after, p0.1))
              | inr (m, c, j, e) ↦ inr (m, c, j, cc (e, end, p3.after, p1.0.after, p0.1))
            ];
            worker = p3.row;
            worker_found = cc (p3.is_row.found, p2.workers, p1.0.after, p0.1);
            workers = cc (end, p3.after, p2.workers, p1.0.after, p0.1);
            attempt_status = js.1;
            answer = cc (said, p1.0.result, leased);
          }
