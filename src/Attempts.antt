-- ===== src/Attempts.antt =====
-- app/repositories/job_attempt_repository.py: the table job_attempts. A row that breaks a CHECK or a
-- UNIQUE constraint is refused at the flush, and so is one with a value that does not fit its column.
pub mod Effects
use ai_video_replication.Common.{
  ℤ, ltb, nat_eq, ◌&&◌, ◌||◌, Bool, false, not, if◌then◌else◌, Option, none, some, List, [], ◌∷◌,
  ◌++◌, String, ◌==◌, option_is, or_else, or_option, or_text, select, any, update_where,
}
use ai_video_replication.Common.Json.{Dict, empty, or_dict, or_dict?}
use ai_video_replication.Common.Text.{Text, codes}
use ai_video_replication.Enums.{AttemptStatus}
use ai_video_replication.Store.{
  Time, JobAttempt, M, ok, err, value_error, integrity_error, ◌>>=◌, ◌>>◌, present, raise_if, reads,
  scalar_one_or_none, attempt_checks, attempt_fits, data_error,
}

abbrev pub has_id : String → JobAttempt → Bool
has_id k a = a.attempt_id == k

-- UNIQUE (attempt_id) and UNIQUE (job_id, attempt_index)
abbrev pub collides : JobAttempt → JobAttempt → Bool
collides a b =
    has_id a.attempt_id b || (b.job_id == a.job_id && nat_eq b.attempt_index a.attempt_index)

abbrev pub write : JobAttempt → (JobAttempt → JobAttempt) → M JobAttempt
write a f db =
    if not (attempt_fits (f a))
    then err data_error
    else if attempt_checks (f a)
    then ok (f a, record db { attempts = update_where (has_id a.attempt_id) f db.attempts })
    else err integrity_error

unfoldable pub create_attempt : JobAttempt → M JobAttempt
create_attempt a db =
    if not (attempt_fits a)
    then err data_error
    else if any (collides a) db.attempts
    then err integrity_error
    else if attempt_checks a
    then ok (a, record db { attempts = db.attempts ++ a ∷ [] })
    else err integrity_error

-- `ORDER BY attempt_index DESC LIMIT 1`
abbrev pub later : JobAttempt → Option JobAttempt → JobAttempt
later a none = a
later a (some b) = if ltb a.attempt_index b.attempt_index then b else a

unfoldable pub latest : String → List JobAttempt → Option JobAttempt
latest job_id [] = none
latest job_id (a ∷ rest) =
    if a.job_id == job_id then some (later a (latest job_id rest)) else latest job_id rest

unfoldable pub get_latest_attempt : String → M (Option JobAttempt)
unfolding latest
get_latest_attempt job_id = reads (λ db. ok (latest job_id db.attempts))

unfoldable pub get_attempt_by_attempt_id : String → M (Option JobAttempt)
get_attempt_by_attempt_id attempt_id =
    reads (λ db. scalar_one_or_none (select (has_id attempt_id) db.attempts))

abbrev pub not_found : String → Text
not_found attempt_id = codes "attempt not found: " ++ codes attempt_id

abbrev pub about : JobAttempt → String → Text
about a words = codes "attempt " ++ (codes a.attempt_id ++ codes words)

abbrev pub differs : Option String → Option String → Bool
differs none column = false
differs (some given) column = not (option_is column given)

-- `_assert_attempt_owner`: what is not given is not compared.
unfoldable pub assert_attempt_owner : JobAttempt → Option String → Option String → M (Unit {0})
assert_attempt_owner a claim_token worker_id = do
  raise_if (differs claim_token a.claim_token) (value_error (about a " claim_token mismatch"))
  raise_if (differs worker_id a.worker_id) (value_error (about a " worker_id mismatch"))

abbrev pub started : Option Time → Time → JobAttempt → JobAttempt
started started_at utcnow a = record a {
  attempt_status = AttemptStatus.started;
  started_at = some (or_else a.started_at (or_else started_at utcnow));
}

unfoldable pub mark_started :
    Time → String → Option String → Option String → Option Time → M JobAttempt
unfolding get_attempt_by_attempt_id assert_attempt_owner
mark_started utcnow attempt_id claim_token worker_id started_at = do
  a ← present (← get_attempt_by_attempt_id attempt_id) (value_error (not_found attempt_id))
  assert_attempt_owner a claim_token worker_id
  write a (started started_at utcnow)

unfoldable pub mark_provider_running :
    String → Option String → Option String → Option String → M JobAttempt
unfolding get_attempt_by_attempt_id
mark_provider_running attempt_id provider_name provider_model provider_run_id = do
  a ← present (← get_attempt_by_attempt_id attempt_id) (value_error (not_found attempt_id))
  write a λ b. record b {
    attempt_status = AttemptStatus.provider_running;
    provider_name = or_text provider_name b.provider_name;
    provider_model = or_text provider_model b.provider_model;
    provider_run_id = or_text provider_run_id b.provider_run_id;
  }

unfoldable pub mark_artifact_collecting : String → Option String → Option String → M JobAttempt
unfolding get_attempt_by_attempt_id
mark_artifact_collecting attempt_id result_ref manifest_artifact_id = do
  a ← present (← get_attempt_by_attempt_id attempt_id) (value_error (not_found attempt_id))
  write a λ b. record b {
    attempt_status = AttemptStatus.artifact_collecting;
    result_ref = or_text result_ref b.result_ref;
    manifest_artifact_id = or_text manifest_artifact_id b.manifest_artifact_id;
  }

-- what a finished attempt reports
pub record Report : Type 0 where
  pub result_ref : Option String
  pub manifest_artifact_id : Option String
  pub runtime_ms : Option ℤ
  pub provider_runtime_ms : Option ℤ
  pub upload_ms : Option ℤ

abbrev pub completed : String → Option Time → Time → Report → JobAttempt → JobAttempt
completed completion_status finished_at utcnow r a = record a {
  attempt_status = AttemptStatus.completed;
  completion_status = some completion_status;
  finished_at = some (or_else finished_at utcnow);
  result_ref = or_text r.result_ref a.result_ref;
  manifest_artifact_id = or_text r.manifest_artifact_id a.manifest_artifact_id;
  runtime_ms = or_option r.runtime_ms a.runtime_ms;
  provider_runtime_ms = or_option r.provider_runtime_ms a.provider_runtime_ms;
  upload_ms = or_option r.upload_ms a.upload_ms;
}

unfoldable pub mark_completed : Time → String → String → Option Time → Report → M JobAttempt
unfolding get_attempt_by_attempt_id
mark_completed utcnow attempt_id completion_status finished_at r = do
  a ← present (← get_attempt_by_attempt_id attempt_id) (value_error (not_found attempt_id))
  write a (completed completion_status finished_at utcnow r)

abbrev pub errored :
    AttemptStatus
    → Option String
    → Option String
    → Option Dict
    → Option Time
    → Time
    → JobAttempt
    → JobAttempt
errored status code message payload finished_at utcnow a = record a {
  attempt_status = status;
  finished_at = some (or_else finished_at utcnow);
  error_code = code;
  error_message = message;
  error_payload_json = or_dict? payload (or_dict a.error_payload_json empty);
}

unfoldable pub mark_failed :
    Time → String → Option String → Option String → Option Dict → Option Time → M JobAttempt
unfolding get_attempt_by_attempt_id
mark_failed utcnow attempt_id code message payload finished_at = do
  a ← present (← get_attempt_by_attempt_id attempt_id) (value_error (not_found attempt_id))
  write a (errored AttemptStatus.failed code message payload finished_at utcnow)

unfoldable pub mark_stale :
    Time → String → String → Option String → Option Dict → Option Time → M JobAttempt
unfolding get_attempt_by_attempt_id
mark_stale utcnow attempt_id code message payload finished_at = do
  a ← present (← get_attempt_by_attempt_id attempt_id) (value_error (not_found attempt_id))
  write a (errored AttemptStatus.stale (some code) message payload finished_at utcnow)

abbrev pub timed_out : String → Option String → Option Time → Time → JobAttempt → JobAttempt
timed_out code message finished_at utcnow a = record a {
  attempt_status = AttemptStatus.timed_out;
  finished_at = some (or_else finished_at utcnow);
  error_code = some code;
  error_message = or_text message a.error_message;
}

unfoldable pub mark_timed_out : Time → String → String → Option String → Option Time → M JobAttempt
unfolding get_attempt_by_attempt_id
mark_timed_out utcnow attempt_id code message finished_at = do
  a ← present (← get_attempt_by_attempt_id attempt_id) (value_error (not_found attempt_id))
  write a (timed_out code message finished_at utcnow)
