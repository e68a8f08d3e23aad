-- ===== src/Services/Complete.antt =====
-- app/services/runtime_complete_service.py: the worker that holds a job's lease reports its success.
pub mod Effects
use ai_video_replication.Common.{
  ◌||◌, Bool, true, false, not, if◌then◌else◌, Option, none, some, List, [], ◌∷◌, ◌++◌, String,
  ◌==◌, option_is, or_else, or_option, or_str, or_text,
}
use ai_video_replication.Common.Text.{Text, codes, begins_with, contains, is_text}
use ai_video_replication.Enums.{JobStatus, AttemptStatus, attempt_status_value, job_status_value}
use ai_video_replication.Store.{
  Time, RuntimeJob, JobAttempt, WorkerLease, WorkerRegistry, Db, M, Result, Exn, lease_conflict,
  state_conflict, ◌>>=◌, ◌>>◌, pure, present, raise_if, map_value_error, transaction,
}
use ai_video_replication.Jobs
use ai_video_replication.Attempts
use ai_video_replication.Leases
use ai_video_replication.Workers
use ai_video_replication.Services.Schemas.{CompleteJobRequest, EndJobResult, World}

-- `ACTIVE_ATTEMPT_STATUSES`
abbrev pub is_active_attempt : AttemptStatus → Bool
is_active_attempt AttemptStatus.claimed = true
is_active_attempt AttemptStatus.started = true
is_active_attempt AttemptStatus.provider_running = true
is_active_attempt AttemptStatus.artifact_collecting = true
is_active_attempt _ = false

unfoldable pub map_repository_value_error : Text → Exn
map_repository_value_error message =
    if begins_with message (codes "active lease not found")
      || (begins_with message (codes "lease ")
          || (contains message (codes "claim_token mismatch")
              || (contains message (codes "claimed_by_worker_id mismatch")
                  || (contains message (codes "worker_id mismatch")
                      || (is_text message (codes "lease.job_id mismatch")
                          || (is_text message (codes "lease.worker_id mismatch")
                              || (is_text message (codes "lease.attempt_id mismatch")
                                  || is_text message (codes "attempt.job_id mismatch"))))))))
    then lease_conflict message
    else state_conflict message

unfoldable pub assert_lease_matches : WorkerLease → CompleteJobRequest → M (Unit {0})
assert_lease_matches lease r = do
  raise_if (not (lease.job_id == r.job_id)) (lease_conflict (codes "lease.job_id mismatch"))
  raise_if (not (lease.worker_id == r.worker_id))
      (lease_conflict (codes "lease.worker_id mismatch"))
  raise_if (not (option_is lease.attempt_id r.attempt_id))
      (lease_conflict (codes "lease.attempt_id mismatch"))

unfoldable pub assert_active_claim : RuntimeJob → CompleteJobRequest → M (Unit {0})
assert_active_claim job r = do
  raise_if (not (option_is job.active_claim_token r.claim_token))
      (lease_conflict (codes "job.active_claim_token mismatch"))
  raise_if (not (option_is job.claimed_by_worker_id r.worker_id))
      (lease_conflict (codes "job.claimed_by_worker_id mismatch"))

unfoldable pub assert_attempt_matches : JobAttempt → CompleteJobRequest → M (Unit {0})
assert_attempt_matches attempt r = do
  raise_if (not (attempt.job_id == r.job_id)) (lease_conflict (codes "attempt.job_id mismatch"))
  raise_if (not (option_is attempt.claim_token r.claim_token))
      (lease_conflict (codes "attempt.claim_token mismatch"))
  raise_if (not (option_is attempt.worker_id r.worker_id))
      (lease_conflict (codes "attempt.worker_id mismatch"))

-- The checks before anything is written: the lease, the job and the attempt all belong to the caller.
unfoldable pub check_request : CompleteJobRequest → M (Unit {0})
unfolding assert_lease_matches assert_active_claim assert_attempt_matches
check_request r = do
  lease ←
      present (← Leases.get_active_lease_by_claim_token r.claim_token)
        (lease_conflict (codes "active lease not found for claim_token=" ++ codes r.claim_token))
  assert_lease_matches lease r
  job ← present (← Jobs.get_by_job_id r.job_id) (state_conflict (Jobs.not_found r.job_id))
  assert_active_claim job r
  raise_if (Jobs.is_terminal job.job_status) (
      state_conflict
        (Jobs.about job " already terminal: " ++ codes (job_status_value job.job_status)))
  attempt ←
      present (← Attempts.get_attempt_by_attempt_id r.attempt_id)
        (state_conflict (Attempts.not_found r.attempt_id))
  assert_attempt_matches attempt r
  raise_if (not (is_active_attempt attempt.attempt_status)) (
      state_conflict (
        Attempts.about attempt " cannot complete from "
        ++ codes (attempt_status_value attempt.attempt_status)))

abbrev pub complete_result :
    World
    → CompleteJobRequest
    → RuntimeJob
    → JobAttempt
    → WorkerLease
    → WorkerRegistry
    → EndJobResult
complete_result env r job attempt lease worker = record {
  job_id = job.job_id;
  attempt_id = attempt.attempt_id;
  lease_id = lease.lease_id;
  job_status = job.job_status;
  attempt_status = attempt.attempt_status;
  lease_status = lease.lease_status;
  worker_id = r.worker_id;
  current_job_count = worker.current_job_count;
  finished_at = or_else (or_option job.finished_at attempt.finished_at) env.now;
  metadata_json = r.metadata_json;
}

abbrev pub report : CompleteJobRequest → Attempts.Report
report r = record {
  result_ref = r.result_ref;
  manifest_artifact_id = r.manifest_artifact_id;
  runtime_ms = r.runtime_ms;
  provider_runtime_ms = r.provider_runtime_ms;
  upload_ms = r.upload_ms;
}

unfoldable pub complete_body : World → CompleteJobRequest → M EndJobResult
complete_body env r = do
  check_request r
  attempt ←
      Attempts.mark_completed env.utcnow r.attempt_id (or_str r.completion_status "SUCCEEDED")
        (some env.now) (report r)
  job ←
      Jobs.mark_succeeded env.utcnow r.job_id r.claim_token r.worker_id (some env.now)
        (some (or_str r.completion_status "SUCCEEDED")) r.terminal_reason
  lease ← Leases.release_lease env.utcnow r.claim_token r.worker_id (some env.now)
  worker ← Workers.decrement_current_job_count r.worker_id 1
  Workers.mark_seen env.utcnow r.worker_id (some env.now)
  pure (complete_result env r job attempt lease worker)

unfoldable pub complete_job : World → CompleteJobRequest → Db → Result EndJobResult × Db
unfolding transaction
complete_job env r = transaction (map_value_error map_repository_value_error (complete_body env r))
