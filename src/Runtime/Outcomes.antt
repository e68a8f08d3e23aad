-- ===== src/Runtime/Outcomes.antt =====
-- What claim_job and heartbeat have found and left when they return, as the caller and the tables
-- show it.
use ai_video_replication.Common.{
  ◌+◌, ◌≡◌, refl, pos, leb_ℤ, or_int, inl, inr, true, false, some, List, [], ◌∷◌, ◌++◌, arith, In,
  find, find-update_same,
}
use ai_video_replication.Enums.{JobStatus, LeaseStatus}
use ai_video_replication.Store.{RuntimeJob, JobAttempt, WorkerLease, Db, ok, returned}
use ai_video_replication.Jobs
use ai_video_replication.Jobs.Queue.{is_candidate}
use ai_video_replication.Jobs.Queue.Members.{get_claimable_job-In}
use ai_video_replication.Leases
use ai_video_replication.Services.Schemas.{
  World, after_seconds, ClaimJobRequest, ClaimJobResult, HeartbeatRequest, HeartbeatResult,
}
use ai_video_replication.Services.Claim as Claim
use ai_video_replication.Services.Heartbeat as Heartbeat
use ai_video_replication.Services.Claim.Effects as ClaimEffects
use ai_video_replication.Services.Heartbeat.Effects as HeartbeatEffects
use ai_video_replication.Runtime.Invariant.Ready.{Enrolled-Ready}
use ai_video_replication.Runtime.Invariant.Claims.{offered-row}
use ai_video_replication.Runtime.Steps.{Call, run, empty_db}
use ai_video_replication.Runtime.Histories.{run-Inv, empty-Inv}

-- A job that was handed over: its row, the new attempt and the new lease agree with each other and
-- with the answer.
pub record HandedOver (env : World) (r : ClaimJobRequest) (db : Db) (res : ClaimJobResult)
    (db' : Db) : Type 0 where
  pub job : RuntimeJob
  pub waited : In job db.jobs
  pub candidate : is_candidate env.locked r.queue_name r.routing_key job ≡ true
  pub job' : RuntimeJob
  pub written : find (Jobs.has_id job.job_id) db'.jobs ≡ some job'
  pub status : job'.job_status ≡ JobStatus.claimed
  pub counted : job'.attempt_count ≡ job.attempt_count + 1
  pub by_worker : job'.claimed_by_worker_id ≡ some r.worker_id
  pub by_token : job'.active_claim_token ≡ some env.claim_token
  pub attempt : JobAttempt
  pub attempts : db'.attempts ≡ db.attempts ++ attempt ∷ []
  pub attempt_job : attempt.job_id ≡ job.job_id
  pub attempt_index : attempt.attempt_index ≡ job'.attempt_count
  pub attempt_token : attempt.claim_token ≡ some env.claim_token
  pub lease : WorkerLease
  pub leases : db'.leases ≡ db.leases ++ lease ∷ []
  pub lease_active : lease.lease_status ≡ LeaseStatus.active
  pub lease_job : lease.job_id ≡ job.job_id
  pub lease_worker : lease.worker_id ≡ r.worker_id
  pub lease_token : lease.claim_token ≡ env.claim_token
  pub lease_attempt : lease.attempt_id ≡ some attempt.attempt_id
  pub lease_end :
      lease.lease_expires_at
      ≡ after_seconds env.now (or_int r.lease_timeout_seconds_override job.lease_timeout_seconds)
  pub answer_job : res.job_id ≡ job.job_id
  pub answer_token : res.claim_token ≡ env.claim_token
  pub answer_index : res.attempt_index ≡ attempt.attempt_index
  pub answer_end : res.lease_expires_at ≡ lease.lease_expires_at

-- When claim_job returns a job after a history from the empty database, the job was a row that passes
-- the conditions of the query; its row, one new attempt and one new lease now carry the claim, agree
-- with each other, and are what the answer says.
pub claim_job-HandedOver :
    (h : List (World × Call)) (env : World) (r : ClaimJobRequest) (db' : Db) (res : ClaimJobResult)
    → Claim.claim_job env r (run h empty_db) ≡ (ok (some res), db')
    → HandedOver env r (run h empty_db) res db'
unfolding Claim.claim_job
claim_job-HandedOver h env r db' res eq =
    let db = run h empty_db in
    let v = run-Inv h empty_db empty-Inv in
    let c =
      ClaimEffects.claim_body_lem env r db db' (some res)
        (returned Claim.map_repository_value_error (Claim.claim_body env r) db db' (some res) eq) in
    let d = Enrolled-Ready env r db c.worker c.between c.enrolled v in
    elim c.outcome [
      | inl (_, nothing, _, _) ↦ cc
      | inr (job, offer, t) ↦
          let (there, passes) =
            get_claimable_job-In env.locked r.queue_name r.routing_key r.worker_capability_tags
              db.jobs job offer in
          let said : res
              ≡ Claim.claim_result (ClaimEffects.taken env r job job)
                  (ClaimEffects.attempt_of env r job) (ClaimEffects.lease_of env r job)
                  env.claim_token =
            let e = t.answer in ground arith in
          record {
            job = job;
            waited = there;
            candidate = passes;
            job' = ClaimEffects.taken env r job job;
            written =
                rw (t.jobs, d.jobs)
                  (find-update_same (Jobs.has_id job.job_id) (ClaimEffects.taken env r job) db.jobs
                    job (λ b. refl) (offered-row env r db job offer v));
            status = refl;
            counted = refl;
            by_worker = refl;
            by_token = refl;
            attempt = ClaimEffects.attempt_of env r job;
            attempts = rw (t.attempts, d.attempts) refl;
            attempt_job = refl;
            attempt_index = refl;
            attempt_token = refl;
            lease = ClaimEffects.lease_of env r job;
            leases = rw (t.leases, d.leases) refl;
            lease_active = refl;
            lease_job = refl;
            lease_worker = refl;
            lease_token = refl;
            lease_attempt = refl;
            lease_end = refl;
            answer_job = rw said refl;
            answer_token = rw said refl;
            answer_index = rw said refl;
            answer_end = rw said refl;
          }
    ]

-- A lease that a heartbeat has extended.
pub record Extended (env : World) (r : HeartbeatRequest) (db : Db) (res : HeartbeatResult)
    (db' : Db) : Type 0 where
  pub job : RuntimeJob
  pub job_found : find (Jobs.has_id r.job_id) db.jobs ≡ some job
  pub lease : WorkerLease
  pub lease_found : find (Leases.active_with r.claim_token) db.leases ≡ some lease
  pub lease_worker : lease.worker_id ≡ r.worker_id
  pub alive : leb_ℤ lease.lease_expires_at env.now ≡ false
  pub extensible : leb_ℤ lease.max_extensions (pos lease.extension_count) ≡ false
  pub lease' : WorkerLease
  pub written : find (Leases.active_with r.claim_token) db'.leases ≡ some lease'
  pub end :
      lease'.lease_expires_at
      ≡ after_seconds env.now (or_int r.lease_timeout_seconds_override job.lease_timeout_seconds)
  pub beats : lease'.heartbeat_count ≡ lease.heartbeat_count + 1
  pub extensions : lease'.extension_count ≡ lease.extension_count + 1
  pub answer_end : res.lease_expires_at ≡ lease'.lease_expires_at
  pub answer_count : res.extension_count ≡ lease'.extension_count

Beaten-Extended :
    (env : World) (r : HeartbeatRequest) (db db' : Db) (res : HeartbeatResult)
    → HeartbeatEffects.Beaten env r db res db'
    → Extended env r db res db'
Beaten-Extended env r db db' res c = record {
  job = c.job;
  job_found = c.holder.job_row.found;
  lease = c.holder.lease;
  lease_found = c.holder.lease_held.found;
  lease_worker = c.holder.lease_worker;
  alive = c.holder.alive;
  extensible = c.extensible;
  lease' = HeartbeatEffects.kept_lease env r c.job c.holder.lease;
  written = rw c.leases (
      find-update_same (Leases.active_with r.claim_token) (HeartbeatEffects.kept_lease env r c.job)
        db.leases c.holder.lease (λ b. refl) c.holder.lease_held.found);
  end = refl;
  beats = refl;
  extensions = refl;
  answer_end = rw c.answer refl;
  answer_count = rw c.answer refl;
}

-- When heartbeat returns, the token's lease was active, had not reached its end and had an extension
-- left; it now ends one timeout after the request (the request's own, else the job's), its counts of
-- heartbeats and of extensions are one more, and the answer says so.
pub heartbeat-Extended :
    (env : World) (r : HeartbeatRequest) (db db' : Db) (res : HeartbeatResult)
    → Heartbeat.heartbeat env r db ≡ (ok res, db')
    → Extended env r db res db'
unfolding Heartbeat.heartbeat
heartbeat-Extended env r db db' res eq = Beaten-Extended env r db db' res (
    HeartbeatEffects.heartbeat_body_lem env r db db' res (
      returned Heartbeat.map_repository_value_error (Heartbeat.heartbeat_body env r) db db' res eq))
