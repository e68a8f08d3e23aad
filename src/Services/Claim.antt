-- ===== src/Services/Claim.antt =====
-- app/services/runtime_claim_service.py: a worker registers itself and takes a job from the queue.
pub mod Effects
use ai_video_replication.Common.{
  ℕ, ℤ, pos, leb, leb_ℤ, max_ℤ, ◌-ℤ◌, or_int, ◌||◌, Bool, true, false, if◌then◌else◌, Option, none,
  some, List, [], ◌∷◌, ◌++◌, String, or_option,
}
use ai_video_replication.Common.Json.{empty}
use ai_video_replication.Common.Text.{Text, codes, contains, decimal}
use ai_video_replication.Enums.{
  WorkerHealthStatus, AttemptType, AttemptStatus, LeaseStatus, health_status_value,
}
use ai_video_replication.Store.{
  Time, RuntimeJob, JobAttempt, WorkerLease, WorkerRegistry, Db, M, Result, ok, err, Exn,
  lease_conflict, state_conflict, ◌>>=◌, ◌>>◌, pure, raise_if, map_value_error, transaction,
}
use ai_video_replication.Jobs
use ai_video_replication.Jobs.Queue.{get_claimable_job}
use ai_video_replication.Attempts
use ai_video_replication.Leases
use ai_video_replication.Workers
use ai_video_replication.Workers.{WorkerRegistrationUpsert}
use ai_video_replication.Services.Schemas.{ClaimJobRequest, ClaimJobResult, World, after_seconds}

abbrev pub is_blocked : WorkerHealthStatus → Bool
is_blocked WorkerHealthStatus.draining = true
is_blocked WorkerHealthStatus.offline = true
is_blocked _ = false

unfoldable pub map_repository_value_error : Text → Exn
map_repository_value_error message =
    if contains message (codes "claim_token mismatch")
      || contains message (codes "claimed_by_worker_id mismatch")
    then lease_conflict message
    else state_conflict message

unfoldable pub assert_worker_claimable : WorkerRegistry → M (Unit {0})
assert_worker_claimable w = do
  raise_if (is_blocked w.health_status) (
      state_conflict (
        codes "worker "
        ++ (codes w.worker_id
            ++ (codes " health_status does not allow claim: "
                ++ codes (health_status_value w.health_status)))))
  raise_if (leb_ℤ w.max_concurrency (pos w.current_job_count)) (
      state_conflict (
        codes "worker "
        ++ (codes w.worker_id
            ++ (codes " has no remaining capacity: "
                ++ (decimal (pos w.current_job_count)
                    ++ (codes "/" ++ decimal w.max_concurrency))))))

abbrev pub derive_attempt_type : RuntimeJob → AttemptType
derive_attempt_type job = if leb job.attempt_count 1 then AttemptType.primary else AttemptType.retry

abbrev pub derive_queue_wait_ms : (Time → ℤ) → RuntimeJob → Time → Option ℤ
derive_queue_wait_ms elapsed_ms job now = elim (or_option job.queued_at (some job.created_at)) [
  | none ↦ none
  | some queued_at ↦ some (max_ℤ (pos 0) (elapsed_ms (now -ℤ queued_at)))
]

-- A worker that is known keeps its health; a new one is healthy.
abbrev pub health_of : Option WorkerRegistry → WorkerHealthStatus
health_of none = WorkerHealthStatus.healthy
health_of (some w) = w.health_status

abbrev pub registration : World → ClaimJobRequest → Option WorkerRegistry → WorkerRegistrationUpsert
registration env r existing = record {
  worker_id = r.worker_id;
  worker_type = r.worker_type;
  hostname = r.hostname;
  pid = r.pid;
  version = r.version;
  capability_tags_json = r.worker_capability_tags;
  queue_bindings_json = r.queue_bindings;
  health_status = health_of existing;
  max_concurrency = r.max_concurrency;
  started_at = none;
  last_seen_at = some env.now;
  metadata_json = r.metadata_json;
}

abbrev pub new_attempt : World → ClaimJobRequest → RuntimeJob → JobAttempt
new_attempt env r job = record {
  attempt_id = env.attempt_id;
  job_id = job.job_id;
  attempt_index = job.attempt_count;
  attempt_type = derive_attempt_type job;
  attempt_status = AttemptStatus.claimed;
  worker_id = some r.worker_id;
  claim_token = some env.claim_token;
  provider_name = none;
  provider_model = none;
  provider_run_id = none;
  started_at = none;
  finished_at = none;
  completion_status = none;
  error_code = none;
  error_message = none;
  error_payload_json = empty;
  result_ref = none;
  manifest_artifact_id = none;
  queue_wait_ms = derive_queue_wait_ms env.elapsed_ms job env.now;
  runtime_ms = none;
  provider_runtime_ms = none;
  upload_ms = none;
  metrics_json = empty;
  metadata_json = r.metadata_json;
}

abbrev pub new_lease : World → ClaimJobRequest → RuntimeJob → JobAttempt → Time → WorkerLease
new_lease env r job attempt lease_expires_at = record {
  lease_id = env.lease_id;
  job_id = job.job_id;
  attempt_id = some attempt.attempt_id;
  worker_id = r.worker_id;
  claim_token = env.claim_token;
  lease_status = LeaseStatus.active;
  lease_started_at = env.now;
  lease_expires_at = lease_expires_at;
  last_heartbeat_at = none;
  heartbeat_count = 0;
  extension_count = 0;
  max_extensions = r.lease_max_extensions;
  revoked_at = none;
  revoked_reason = none;
  metadata_json = r.metadata_json;
}

abbrev pub claim_result : RuntimeJob → JobAttempt → WorkerLease → String → ClaimJobResult
claim_result job attempt lease claim_token = record {
  job_id = job.job_id;
  attempt_id = attempt.attempt_id;
  lease_id = lease.lease_id;
  claim_token = claim_token;
  job_status = job.job_status;
  attempt_status = attempt.attempt_status;
  lease_status = lease.lease_status;
  queue_name = job.queue_name;
  priority = job.priority;
  attempt_index = attempt.attempt_index;
  lease_expires_at = lease.lease_expires_at;
}

-- What follows once a job has been picked.
unfoldable pub take_job : World → ClaimJobRequest → RuntimeJob → M (Option ClaimJobResult)
take_job env r candidate = do
  let lease_expires_at =
      after_seconds env.now
        (or_int r.lease_timeout_seconds_override candidate.lease_timeout_seconds)
  job ← Jobs.mark_claimed candidate r.worker_id env.claim_token env.now lease_expires_at
  attempt ← Attempts.create_attempt (new_attempt env r job)
  lease ← Leases.create_lease (new_lease env r job attempt lease_expires_at)
  Workers.increment_current_job_count r.worker_id 1
  Workers.mark_seen env.utcnow r.worker_id (some env.now)
  pure (some (claim_result job attempt lease env.claim_token))

abbrev pub pick : World → ClaimJobRequest → M (Option RuntimeJob)
pick env r db =
    ok
      (get_claimable_job env.locked r.queue_name r.routing_key r.worker_capability_tags db.jobs, db)

-- `if job is None`
unfoldable pub after_pick : World → ClaimJobRequest → Option RuntimeJob → M (Option ClaimJobResult)
after_pick env r none = do Workers.mark_seen env.utcnow r.worker_id (some env.now); pure none
after_pick env r (some candidate) = take_job env r candidate

unfoldable pub claim_body : World → ClaimJobRequest → M (Option ClaimJobResult)
claim_body env r = do
  existing ← Workers.get_by_worker_id r.worker_id
  worker ← Workers.upsert_worker_registration env.utcnow (registration env r existing)
  assert_worker_claimable worker
  job ← pick env r
  after_pick env r job

unfoldable pub claim_job : World → ClaimJobRequest → Db → Result (Option ClaimJobResult) × Db
unfolding transaction
claim_job env r = transaction (map_value_error map_repository_value_error (claim_body env r))
