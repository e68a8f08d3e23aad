-- ===== src/Services/Heartbeat.antt =====
-- app/services/runtime_heartbeat_service.py: a worker keeps its lease alive, and may report that the
-- job runs.
pub mod Checks
pub mod Progress
pub mod Effects
use ai_video_replication.Common.{
  ◌≡◌, leb_ℤ, or_int, ◌||◌, Bool, true, false, not, if◌then◌else◌, Option, none, some, List, [],
  ◌∷◌, ◌++◌, String, ◌==◌, option_is, given,
}
use ai_video_replication.Common.Text.{Text, codes, begins_with, contains, is_text}
use ai_video_replication.Enums.{AttemptStatus, attempt_status_value, job_status_value}
use ai_video_replication.Store.{
  Time, RuntimeJob, JobAttempt, WorkerLease, Db, M, Result, Exn, lease_conflict, state_conflict,
  ◌>>=◌, ◌>>◌, pure, present, raise_if, map_value_error, transaction,
}
use ai_video_replication.Jobs
use ai_video_replication.Attempts
use ai_video_replication.Leases
use ai_video_replication.Workers
use ai_video_replication.Services.Schemas.{HeartbeatRequest, HeartbeatResult, World, after_seconds}

abbrev pub is_startable : AttemptStatus → Bool
is_startable AttemptStatus.claimed = true
is_startable AttemptStatus.started = true
is_startable _ = false

unfoldable pub map_repository_value_error : Text → Exn
map_repository_value_error message =
    if begins_with message (codes "active lease not found")
      || (begins_with message (codes "lease ")
          || (contains message (codes "claim_token mismatch")
              || (contains message (codes "claimed_by_worker_id mismatch")
                  || (contains message (codes "worker_id mismatch")
                      || (is_text message (codes "lease.job_id mismatch")
                          || (is_text message (codes "lease.worker_id mismatch")
                              || (is_text message (codes "lease.attempt_id mismatch")
                                  || is_text message
                                      (codes "lease already expired before heartbeat"))))))))
    then lease_conflict message
    else state_conflict message

-- `request.attempt_id and lease.attempt_id and lease.attempt_id != request.attempt_id`
abbrev pub attempts_differ : Option String → Option String → Bool
attempts_differ none theirs = false
attempts_differ (some mine) none = false
attempts_differ (some mine) (some theirs) = not (theirs == mine)

unfoldable pub assert_lease_matches : World → WorkerLease → HeartbeatRequest → M (Unit {0})
assert_lease_matches env lease r = do
  raise_if (not (lease.job_id == r.job_id)) (lease_conflict (codes "lease.job_id mismatch"))
  raise_if (not (lease.worker_id == r.worker_id))
      (lease_conflict (codes "lease.worker_id mismatch"))
  raise_if (attempts_differ (given r.attempt_id) (given lease.attempt_id))
      (lease_conflict (codes "lease.attempt_id mismatch"))
  raise_if (leb_ℤ lease.lease_expires_at env.now)
      (lease_conflict (codes "lease already expired before heartbeat"))

unfoldable pub assert_active_claim : RuntimeJob → HeartbeatRequest → M (Unit {0})
assert_active_claim job r = do
  raise_if (not (option_is job.active_claim_token r.claim_token))
      (lease_conflict (codes "job.active_claim_token mismatch"))
  raise_if (not (option_is job.claimed_by_worker_id r.worker_id))
      (lease_conflict (codes "job.claimed_by_worker_id mismatch"))

unfoldable pub assert_attempt_owner : JobAttempt → HeartbeatRequest → M (Unit {0})
assert_attempt_owner attempt r = do
  raise_if (not (option_is attempt.claim_token r.claim_token))
      (lease_conflict (codes "attempt.claim_token mismatch"))
  raise_if (not (option_is attempt.worker_id r.worker_id))
      (lease_conflict (codes "attempt.worker_id mismatch"))

-- `if request.mark_job_running`, with the attempt that the request names, if any
unfoldable pub start_attempt : World → HeartbeatRequest → Option String → M (Option AttemptStatus)
unfolding assert_attempt_owner
start_attempt env r none = pure (some AttemptStatus.started)
start_attempt env r (some attempt_id) = do
  attempt ←
      present (← Attempts.get_attempt_by_attempt_id attempt_id)
        (state_conflict (Attempts.not_found attempt_id))
  assert_attempt_owner attempt r
  raise_if (not (is_startable attempt.attempt_status)) (
      state_conflict (
        Attempts.about attempt " cannot enter STARTED from "
        ++ codes (attempt_status_value attempt.attempt_status)))
  started ←
      Attempts.mark_started env.utcnow attempt_id (some r.claim_token) (some r.worker_id)
        (some env.now)
  pure (some started.attempt_status)

-- `elif request.attempt_id`
unfoldable pub report_attempt : HeartbeatRequest → Option String → M (Option AttemptStatus)
unfolding assert_attempt_owner
report_attempt r none = pure none
report_attempt r (some attempt_id) = do
  attempt ←
      present (← Attempts.get_attempt_by_attempt_id attempt_id)
        (lease_conflict (Attempts.not_found attempt_id))
  assert_attempt_owner attempt r
  pure (some attempt.attempt_status)

-- The job as it is answered, and the attempt's status.
unfoldable pub mark_progress :
    World → HeartbeatRequest → RuntimeJob → M (RuntimeJob × Option AttemptStatus)
mark_progress env r job = elim r.mark_job_running [
  | true ↦ do
    job' ← Jobs.mark_running env.utcnow r.job_id r.claim_token r.worker_id (some env.now)
    status ← start_attempt env r (given r.attempt_id)
    pure (job', status)
  | false ↦ do status ← report_attempt r (given r.attempt_id); pure (job, status)
]

abbrev pub heartbeat_result : RuntimeJob → WorkerLease → Option AttemptStatus → HeartbeatResult
heartbeat_result job lease attempt_status = record {
  job_id = job.job_id;
  lease_id = lease.lease_id;
  claim_token = lease.claim_token;
  job_status = job.job_status;
  lease_status = lease.lease_status;
  attempt_status = attempt_status;
  heartbeat_count = lease.heartbeat_count;
  extension_count = lease.extension_count;
  lease_expires_at = lease.lease_expires_at;
}

-- The checks before anything is written; the answer is the job.
unfoldable pub check_request : World → HeartbeatRequest → M RuntimeJob
check_request env r = do
  lease ←
      present (← Leases.get_active_lease_by_claim_token r.claim_token)
        (lease_conflict (codes "active lease not found for claim_token=" ++ codes r.claim_token))
  assert_lease_matches env lease r
  job ← present (← Jobs.get_by_job_id r.job_id) (state_conflict (Jobs.not_found r.job_id))
  assert_active_claim job r
  raise_if (Jobs.is_terminal job.job_status) (
      state_conflict
        (Jobs.about job " already terminal: " ++ codes (job_status_value job.job_status)))
  pure job

abbrev pub next_end : World → HeartbeatRequest → RuntimeJob → Time
next_end env r job =
    after_seconds env.now (or_int r.lease_timeout_seconds_override job.lease_timeout_seconds)

unfoldable pub heartbeat_body : World → HeartbeatRequest → M HeartbeatResult
heartbeat_body env r = do
  job ← check_request env r
  lease ←
      Leases.extend_lease env.utcnow r.claim_token r.worker_id (next_end env r job) (some env.now)
  (job', attempt_status) ← mark_progress env r job
  Workers.mark_seen env.utcnow r.worker_id (some env.now)
  pure (heartbeat_result job' lease attempt_status)

unfoldable pub heartbeat : World → HeartbeatRequest → Db → Result HeartbeatResult × Db
unfolding transaction
heartbeat env r = transaction (map_value_error map_repository_value_error (heartbeat_body env r))
