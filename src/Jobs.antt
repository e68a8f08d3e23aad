-- ===== src/Jobs.antt =====
-- app/repositories/runtime_job_repository.py: the table runtime_jobs, its statuses, and the
-- operations that change a row. `utcnow` is the clock at a call that falls back on it.
pub mod Statuses
pub mod Queue
pub mod Effects
pub mod Cancels
pub use Statuses.*
use ai_video_replication.Common.{
  ◌+◌, Bool, true, false, not, if◌then◌else◌, Option, none, some, List, [], ◌∷◌, ◌++◌, String, ◌==◌,
  option_is, truthy, or_else, or_option, select, any, update_where,
}
use ai_video_replication.Common.Text.{Text, codes}
use ai_video_replication.Enums.{JobStatus, job_status_value}
use ai_video_replication.Store.{
  Time, RuntimeJob, Db, M, Result, ok, err, value_error, integrity_error, ◌>>=◌, ◌>>◌, pure, raise,
  present, raise_if, reads, scalar_one_or_none, job_checks, job_fits, data_error,
}

abbrev pub has_id : String → RuntimeJob → Bool
has_id k j = j.job_id == k

abbrev pub write : RuntimeJob → (RuntimeJob → RuntimeJob) → M RuntimeJob
write job f db =
    if job_fits (f job)
    then ok (f job, record db { jobs = update_where (has_id job.job_id) f db.jobs })
    else err data_error

-- The row of a new job: `queued_at` is set if the job is created in the queue.
abbrev pub with_queued_at : Time → RuntimeJob → RuntimeJob
with_queued_at utcnow job = elim job.job_status [
  | JobStatus.queued ↦ record job { queued_at = some (or_else job.queued_at utcnow) }
  | _ ↦ job
]

unfoldable pub create_job : Time → RuntimeJob → M RuntimeJob
create_job utcnow payload db =
    let job : RuntimeJob = with_queued_at utcnow payload in
    if not (job_fits job)
    then err data_error
    else if any (has_id job.job_id) db.jobs
    then err integrity_error
    else if job_checks job
    then ok (job, record db { jobs = db.jobs ++ job ∷ [] })
    else err integrity_error

unfoldable pub get_by_job_id : String → M (Option RuntimeJob)
get_by_job_id job_id = reads (λ db. scalar_one_or_none (select (has_id job_id) db.jobs))

abbrev pub not_found : String → Text
not_found job_id = codes "job not found: " ++ codes job_id

abbrev pub about : RuntimeJob → String → Text
about job words = codes "job " ++ (codes job.job_id ++ codes words)

-- `_assert_claim_owner`
unfoldable pub assert_claim_owner : RuntimeJob → String → String → M (Unit {0})
assert_claim_owner job claim_token worker_id = do
  raise_if (not (option_is job.active_claim_token claim_token))
      (value_error (about job " claim_token mismatch"))
  raise_if (not (option_is job.claimed_by_worker_id worker_id))
      (value_error (about job " claimed_by_worker_id mismatch"))

abbrev pub claimed : String → String → Time → Time → RuntimeJob → RuntimeJob
claimed worker_id claim_token claimed_at lease_expires_at job = record job {
  job_status = JobStatus.claimed;
  claimed_by_worker_id = some worker_id;
  active_claim_token = some claim_token;
  claimed_at = some claimed_at;
  lease_expires_at = some lease_expires_at;
  attempt_count = job.attempt_count + 1;
}

unfoldable pub mark_claimed : RuntimeJob → String → String → Time → Time → M RuntimeJob
mark_claimed job worker_id claim_token claimed_at lease_expires_at = do
  raise_if (not (is_claimable job.job_status))
      (value_error (about job " is not claimable: " ++ codes (job_status_value job.job_status)))
  write job (claimed worker_id claim_token claimed_at lease_expires_at)

abbrev pub running : Option Time → Time → RuntimeJob → RuntimeJob
running started_at utcnow job = record job {
  job_status = JobStatus.running;
  started_at = some (or_else job.started_at (or_else started_at utcnow));
}

unfoldable pub mark_running : Time → String → String → String → Option Time → M RuntimeJob
unfolding get_by_job_id assert_claim_owner
mark_running utcnow job_id claim_token worker_id started_at = do
  job ← present (← get_by_job_id job_id) (value_error (not_found job_id))
  assert_claim_owner job claim_token worker_id
  raise_if (not (can_run job.job_status)) (
      value_error
        (about job " cannot enter RUNNING from " ++ codes (job_status_value job.job_status)))
  write job (running started_at utcnow)

abbrev pub finished :
    JobStatus → Option Time → Time → Option String → Option String → RuntimeJob → RuntimeJob
finished status finished_at utcnow code message job = record job {
  job_status = status;
  finished_at = some (or_else finished_at utcnow);
  lease_expires_at = none;
  terminal_reason_code = code;
  terminal_reason_message = message;
}

unfoldable pub mark_succeeded :
    Time → String → String → String → Option Time → Option String → Option String → M RuntimeJob
unfolding get_by_job_id assert_claim_owner
mark_succeeded utcnow job_id claim_token worker_id finished_at code message = do
  job ← present (← get_by_job_id job_id) (value_error (not_found job_id))
  assert_claim_owner job claim_token worker_id
  write job (finished JobStatus.succeeded finished_at utcnow code message)

-- Only FAILED ends the job: it alone writes `finished_at` and clears the lease's end.
abbrev pub failed :
    JobStatus → Option Time → Option String → Option String → RuntimeJob → RuntimeJob
failed next_status finished_at code message job = record job {
  job_status = next_status;
  finished_at = elim next_status [ JobStatus.failed ↦ finished_at | _ ↦ job.finished_at ];
  lease_expires_at = elim next_status [ JobStatus.failed ↦ none | _ ↦ job.lease_expires_at ];
  terminal_reason_code = code;
  terminal_reason_message = message;
}

unfoldable pub mark_failed :
    String
    → String
    → String
    → JobStatus
    → Option Time
    → Option String
    → Option String
    → M RuntimeJob
unfolding get_by_job_id assert_claim_owner
mark_failed job_id claim_token worker_id next_status finished_at code message = do
  raise_if (not (is_failure next_status)) (
      value_error
        (codes "unsupported failure next_status: " ++ codes (job_status_value next_status)))
  job ← present (← get_by_job_id job_id) (value_error (not_found job_id))
  assert_claim_owner job claim_token worker_id
  write job (failed next_status finished_at code message)

abbrev pub cancel_requested : Option String → Option Time → Time → RuntimeJob → RuntimeJob
cancel_requested reason requested_at utcnow job = record job {
  job_status = JobStatus.cancel_requested;
  cancel_requested_at = some (or_else requested_at utcnow);
  cancel_reason = reason;
}

unfoldable pub mark_cancel_requested : Time → String → Option String → Option Time → M RuntimeJob
unfolding get_by_job_id
mark_cancel_requested utcnow job_id reason requested_at = do
  job ← present (← get_by_job_id job_id) (value_error (not_found job_id))
  if is_terminal job.job_status
      then pure job
      else write job (cancel_requested reason requested_at utcnow)

-- The owner is checked only if both the token and the worker are given, and not empty.
abbrev pub assert_given_owner : RuntimeJob → Option String → Option String → M (Unit {0})
assert_given_owner job none worker_id = pure tt
assert_given_owner job (some claim_token) none = pure tt
assert_given_owner job (some claim_token) (some worker_id) =
    if truthy claim_token
    then if truthy worker_id then assert_claim_owner job claim_token worker_id else pure tt
    else pure tt

unfoldable pub mark_cancelled :
    Time
    → String
    → Option String
    → Option String
    → Option Time
    → Option String
    → Option String
    → M RuntimeJob
unfolding get_by_job_id assert_claim_owner
mark_cancelled utcnow job_id claim_token worker_id finished_at code message = do
  job ← present (← get_by_job_id job_id) (value_error (not_found job_id))
  assert_given_owner job claim_token worker_id
  write job (finished JobStatus.cancelled finished_at utcnow code message)

abbrev pub superseded :
    String → Option Time → Time → Option String → Option String → RuntimeJob → RuntimeJob
superseded by_job_id finished_at utcnow code message job =
    finished JobStatus.superseded finished_at utcnow code message
      (record job { superseded_by_job_id = some by_job_id })

unfoldable pub mark_superseded :
    Time → String → String → Option Time → Option String → Option String → M RuntimeJob
unfolding get_by_job_id
mark_superseded utcnow job_id by_job_id finished_at code message = do
  job ← present (← get_by_job_id job_id) (value_error (not_found job_id))
  write job (superseded by_job_id finished_at utcnow code message)
