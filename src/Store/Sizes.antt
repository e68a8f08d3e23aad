-- ===== src/Store/Sizes.antt =====
-- The types of the columns of app/models: `Integer` has 32 bits, and `String(n)` holds n characters.
-- A value that does not fit raises DataError. Columns of enumerations, whose values are short, and of
-- JSON, Text and times are left out.
use Prim.Native.String.{count}
use ai_video_replication.Common.{
  ℕ, ◌≡◌, leb, leb_ℤ, ℤ, pos, negsuc, ◌&&◌, Bool, true, Option, none, some, String, or_option,
  or_text, truthy, Bool-cases, inl, inr,
}
use ai_video_replication.Store.Rows.{RuntimeJob, JobAttempt, WorkerLease, WorkerRegistry}

unfoldable pub int_fits : ℤ → Bool
int_fits n = leb_ℤ (negsuc 2147483647) n && leb_ℤ n (pos 2147483647)

unfoldable pub opt_int_fits : Option ℤ → Bool
unfolding int_fits
opt_int_fits none = true
opt_int_fits (some n) = int_fits n

unfoldable pub text_fits : ℕ → String → Bool
text_fits size s = leb (count s) size

unfoldable pub opt_text_fits : ℕ → Option String → Bool
unfolding text_fits
opt_text_fits size none = true
opt_text_fits size (some s) = text_fits size s

-- The columns of a job that no operation changes once the row is there.
unfoldable pub job_refs_fit : RuntimeJob → Bool
job_refs_fit j =
    text_fits 64 j.job_id
    && (text_fits 50 j.job_type
        && (opt_text_fits 64 j.workflow_run_id
            && (opt_text_fits 64 j.segment_id
                && (opt_text_fits 64 j.execution_unit_id
                    && (opt_text_fits 255 j.compile_ref
                        && (opt_text_fits 255 j.validator_ref
                            && (opt_text_fits 64 j.parent_job_id
                                && (opt_text_fits 64 j.retry_ticket_ref
                                    && (text_fits 100 j.queue_name
                                        && (opt_text_fits 100 j.routing_key
                                            && (opt_text_fits 50 j.source_type
                                                && (opt_text_fits 255 j.source_ref
                                                    && (opt_text_fits 255 j.idempotency_key
                                                        && (opt_text_fits 128 j.request_hash
                                                            && opt_text_fits 128
                                                            j.trace_id))))))))))))))

unfoldable pub job_numbers_fit : RuntimeJob → Bool
job_numbers_fit j =
    int_fits j.priority
    && (int_fits (pos j.infra_rerun_count)
        && (int_fits j.max_attempts
            && (int_fits j.max_infra_reruns
                && (int_fits j.lease_timeout_seconds
                    && (int_fits j.heartbeat_interval_seconds && int_fits j.stale_after_seconds)))))

unfoldable pub job_fits : RuntimeJob → Bool
job_fits j =
    job_refs_fit j
    && (job_numbers_fit j
        && (opt_text_fits 64 j.superseded_by_job_id
            && (opt_text_fits 64 j.claimed_by_worker_id
                && (opt_text_fits 64 j.active_claim_token
                    && (int_fits (pos j.attempt_count)
                        && opt_text_fits 100 j.terminal_reason_code)))))

-- The columns of an attempt that a completion does not change.
unfoldable pub attempt_refs_fit : JobAttempt → Bool
attempt_refs_fit a =
    text_fits 64 a.attempt_id
    && (text_fits 64 a.job_id
        && (int_fits (pos a.attempt_index)
            && (opt_text_fits 64 a.worker_id
                && (opt_text_fits 64 a.claim_token
                    && (opt_text_fits 100 a.provider_name
                        && (opt_text_fits 100 a.provider_model
                            && (opt_text_fits 255 a.provider_run_id
                                && (opt_text_fits 100 a.error_code
                                    && opt_int_fits a.queue_wait_ms))))))))

unfoldable pub attempt_fits : JobAttempt → Bool
attempt_fits a =
    attempt_refs_fit a
    && (opt_text_fits 50 a.completion_status
        && (opt_text_fits 255 a.result_ref
            && (opt_text_fits 64 a.manifest_artifact_id
                && (opt_int_fits a.runtime_ms
                    && (opt_int_fits a.provider_runtime_ms && opt_int_fits a.upload_ms)))))

unfoldable pub lease_fits : WorkerLease → Bool
lease_fits l =
    text_fits 64 l.lease_id
    && (text_fits 64 l.job_id
        && (opt_text_fits 64 l.attempt_id
            && (text_fits 64 l.worker_id
                && (text_fits 64 l.claim_token
                    && (int_fits (pos l.heartbeat_count)
                        && (int_fits (pos l.extension_count) && int_fits l.max_extensions))))))

unfoldable pub worker_refs_fit : WorkerRegistry → Bool
worker_refs_fit w =
    text_fits 64 w.worker_id
    && (text_fits 50 w.worker_type
        && (text_fits 255 w.hostname
            && (opt_int_fits w.pid && (opt_text_fits 100 w.version && int_fits w.max_concurrency))))

unfoldable pub worker_fits : WorkerRegistry → Bool
worker_fits w = worker_refs_fit w && int_fits (pos w.current_job_count)

-- A value that is kept where none is given fits as both do.
pub opt_int_fits-or :
    (a b : Option ℤ)
    → opt_int_fits a ≡ true
    → opt_int_fits b ≡ true
    → opt_int_fits (or_option a b) ≡ true
opt_int_fits-or none b ha hb = hb
opt_int_fits-or (some n) b ha hb = ha

pub opt_text_fits-or :
    (size : ℕ) (a b : Option String)
    → opt_text_fits size a ≡ true
    → opt_text_fits size b ≡ true
    → opt_text_fits size (or_text a b) ≡ true
opt_text_fits-or size none b ha hb = hb
opt_text_fits-or size (some s) b ha hb = elim (Bool-cases (truthy s)) [
  | inl e ↦ rw e ha
  | inr e ↦ rw e hb
]
