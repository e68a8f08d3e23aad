-- ===== src/Runtime/Refusals.antt =====
-- Requests that claim_job and heartbeat refuse.
use ai_video_replication.Common.{
  ◌≡◌, pos, ◌≤ℤ◌, inl, inr, ◌⊎◌, Bool, true, false, some, arith, count, find,
}
use ai_video_replication.Store.{
  WorkerLease, WorkerRegistry, Db, Result, err, lease_conflict, state_conflict, worker_checks,
  worker_fits, scalar-of_one,
}
use ai_video_replication.Leases
use ai_video_replication.Workers
use ai_video_replication.Services.Schemas.{World, ClaimJobRequest, HeartbeatRequest}
use ai_video_replication.Services.Claim as Claim
use ai_video_replication.Services.Heartbeat as Heartbeat

abbrev pub is_state_conflict : {A : Type 0} → Result A → Bool
is_state_conflict (err (state_conflict _)) = true
is_state_conflict _ = false

abbrev pub is_lease_conflict : {A : Type 0} → Result A → Bool
is_lease_conflict (err (lease_conflict _)) = true
is_lease_conflict _ = false

-- If the request's max_concurrency is 1 at least and what it registers fits the worker's columns, a
-- worker that is known, and is draining or offline or has as many jobs as its request allows, is
-- refused by claim_job with a state conflict, and nothing changes.
pub claim_job-refused :
    (env : World) (r : ClaimJobRequest) (db : Db) (w : WorkerRegistry)
    → count (Workers.has_id r.worker_id) db.workers ≡ 1
    → find (Workers.has_id r.worker_id) db.workers ≡ some w
    → pos 1 ≤ℤ r.max_concurrency
    → worker_fits (Workers.renewed env.utcnow (Claim.registration env r (some w)) w) ≡ true
    → (Claim.is_blocked w.health_status ≡ true) ⊎ (r.max_concurrency ≤ℤ pos w.current_job_count)
    → (is_state_conflict (Claim.claim_job env r db).0 ≡ true) × ((Claim.claim_job env r db).1 ≡ db)
unfolding Claim.claim_job Claim.claim_body Claim.assert_worker_claimable Workers.get_by_worker_id
    Workers.upsert_worker_registration worker_checks
claim_job-refused env r db w one found size fit (inl blocked) =
    let there = scalar-of_one (Workers.has_id r.worker_id) db.workers w one found in
    (ground (arith, there, fit), ground (arith, there, fit))
claim_job-refused env r db w one found size fit (inr full) =
    let there = scalar-of_one (Workers.has_id r.worker_id) db.workers w one found in
    (ground (arith, there, fit), ground (arith, there, fit))

-- A heartbeat at or after the end of the token's lease raises a lease conflict, and nothing changes.
pub heartbeat-expired :
    (env : World) (r : HeartbeatRequest) (db : Db) (l : WorkerLease)
    → count (Leases.active_with r.claim_token) db.leases ≡ 1
    → find (Leases.active_with r.claim_token) db.leases ≡ some l
    → l.lease_expires_at ≤ℤ env.now
    → (is_lease_conflict (Heartbeat.heartbeat env r db).0 ≡ true)
      × ((Heartbeat.heartbeat env r db).1 ≡ db)
unfolding Heartbeat.heartbeat Heartbeat.heartbeat_body Heartbeat.check_request
    Heartbeat.assert_lease_matches Leases.get_active_lease_by_claim_token
heartbeat-expired env r db l one found late =
    let there = scalar-of_one (Leases.active_with r.claim_token) db.leases l one found in
    (ground (arith, there), ground (arith, there))
