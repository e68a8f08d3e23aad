-- ===== src/Tests/Scenario.antt =====
-- Two jobs, one worker, and its requests.
use ai_video_replication.Common.{pos, true, false, none, some, List, [], ◌∷◌, String, ◌+ℤ◌}
use ai_video_replication.Common.Json.{empty}
use ai_video_replication.Enums.{JobStatus, AttemptStatus}
use ai_video_replication.Enums.{LeaseStatus, WorkerHealthStatus}
use ai_video_replication.Store.{WorkerLease, WorkerRegistry}
use ai_video_replication.Store.{Time, RuntimeJob, Db}
use ai_video_replication.Services.Schemas.{
  World, ClaimJobRequest, HeartbeatRequest, CompleteJobRequest, FailJobRequest,
}
use ai_video_replication.Common.{◌-ℤ◌, ◌*ℤ◌}
use ai_video_replication.Store.{
  transaction, int_fits, opt_int_fits, text_fits, opt_text_fits, job_refs_fit, job_numbers_fit,
  job_fits, attempt_refs_fit, attempt_fits, lease_fits, worker_refs_fit, worker_fits, job_checks,
  attempt_checks, lease_checks, worker_checks,
}
use ai_video_replication.Jobs
use ai_video_replication.Jobs.Queue.{get_claimable_job}
use ai_video_replication.Attempts
use ai_video_replication.Leases
use ai_video_replication.Workers
use ai_video_replication.Services.Claim.{
  claim_job, claim_body, assert_worker_claimable, after_pick, take_job,
}
use ai_video_replication.Services.Heartbeat
use ai_video_replication.Services.Heartbeat.{heartbeat, heartbeat_body}
use ai_video_replication.Services.Complete
use ai_video_replication.Services.Complete.{complete_job, complete_body}
use ai_video_replication.Services.Fail
use ai_video_replication.Services.Fail.{fail_job, fail_body}
use ai_video_replication.Runtime.Steps.{Call, step, run, empty_db}

abbrev pub render_job : RuntimeJob
render_job = record {
  job_id = "job-1";
  job_type = "render_video";
  job_status = JobStatus.queued;
  project_id = some "p";
  workflow_run_id = none;
  segment_id = none;
  execution_unit_id = none;
  compile_ref = none;
  validator_ref = none;
  parent_job_id = none;
  superseded_by_job_id = none;
  retry_ticket_ref = none;
  priority = pos 5;
  queue_name = "render";
  routing_key = none;
  worker_capability_tags_json = "gpu" ∷ [];
  source_type = none;
  source_ref = none;
  claimed_by_worker_id = none;
  active_claim_token = none;
  attempt_count = 0;
  infra_rerun_count = 0;
  max_attempts = pos 3;
  max_infra_reruns = pos 1;
  lease_timeout_seconds = pos 60;
  heartbeat_interval_seconds = pos 10;
  stale_after_seconds = pos 120;
  created_at = pos 1000;
  queued_at = none;
  claimed_at = none;
  started_at = none;
  finished_at = none;
  lease_expires_at = none;
  cancel_requested_at = none;
  cancel_reason = none;
  terminal_reason_code = none;
  terminal_reason_message = none;
  idempotency_key = none;
  request_hash = none;
  trace_id = none;
  metadata_json = empty;
}

abbrev pub voice_job : RuntimeJob
voice_job = record render_job {
  job_id = "job-2";
  job_type = "render_voice";
  priority = pos 9;
  worker_capability_tags_json = [];
  created_at = pos 2000;
}

abbrev pub world_at : Time → String → World
world_at now token = record {
  now = now;
  utcnow = now;
  claim_token = token;
  attempt_id = token;
  lease_id = token;
  elapsed_ms = λ d. d;
  locked = λ j. false;
}

abbrev pub asks : ClaimJobRequest
asks = record {
  worker_id = "w";
  worker_type = "render";
  hostname = "host";
  pid = none;
  version = none;
  queue_name = some "render";
  routing_key = none;
  worker_capability_tags = [];
  queue_bindings = [];
  max_concurrency = pos 1;
  lease_timeout_seconds_override = none;
  lease_max_extensions = pos 2;
  metadata_json = empty;
}

abbrev pub alive : HeartbeatRequest
alive = record {
  job_id = "job-2";
  worker_id = "w";
  claim_token = "t1";
  attempt_id = none;
  mark_job_running = true;
  lease_timeout_seconds_override = none;
  metadata_json = empty;
}

abbrev pub done : CompleteJobRequest
done = record {
  job_id = "job-2";
  attempt_id = "t1";
  worker_id = "w";
  claim_token = "t1";
  completion_status = none;
  terminal_reason = none;
  result_ref = none;
  manifest_artifact_id = none;
  runtime_ms = none;
  provider_runtime_ms = none;
  upload_ms = none;
  metadata_json = empty;
}

abbrev pub gives_up : FailJobRequest
gives_up = record {
  job_id = "job-2";
  attempt_id = "t1";
  worker_id = "w";
  claim_token = "t1";
  next_job_status = JobStatus.waiting_retry;
  attempt_terminal_status = AttemptStatus.timed_out;
  terminal_reason = none;
  error_code = none;
  error_message = none;
  error_payload_json = empty;
  expire_lease = true;
  metadata_json = empty;
}

-- The worker and the lease once the job is claimed.
abbrev pub busy : WorkerRegistry
busy = record {
  worker_id = "w";
  worker_type = "render";
  hostname = "host";
  pid = none;
  version = none;
  capability_tags_json = [];
  queue_bindings_json = [];
  health_status = WorkerHealthStatus.healthy;
  current_job_count = 1;
  max_concurrency = pos 1;
  started_at = pos 3;
  last_seen_at = pos 3;
  draining_at = none;
  offline_at = none;
  metadata_json = empty;
}

abbrev pub held : WorkerLease
held = record {
  lease_id = "t1";
  job_id = "job-2";
  attempt_id = some "t1";
  worker_id = "w";
  claim_token = "t1";
  lease_status = LeaseStatus.active;
  lease_started_at = pos 3;
  lease_expires_at = pos 60000003;
  last_heartbeat_at = none;
  heartbeat_count = 0;
  extension_count = 0;
  max_extensions = pos 2;
  revoked_at = none;
  revoked_reason = none;
  metadata_json = empty;
}

abbrev pub queued : List (World × Call)
queued =
    (world_at (pos 1) "a", Call.creates render_job)
    ∷ (world_at (pos 2) "b", Call.creates voice_job)
    ∷ []

abbrev pub claimed : List (World × Call)
claimed =
    (world_at (pos 1) "a", Call.creates render_job)
    ∷ (world_at (pos 2) "b", Call.creates voice_job)
    ∷ (world_at (pos 3) "t1", Call.claims asks)
    ∷ []

abbrev pub completed : List (World × Call)
completed =
    (world_at (pos 1) "a", Call.creates render_job)
    ∷ (world_at (pos 2) "b", Call.creates voice_job)
    ∷ (world_at (pos 3) "t1", Call.claims asks)
    ∷ (world_at (pos 4) "c", Call.completes done)
    ∷ []

-- The database of a history, with everything that a run computes through.
unfoldable pub played : List (World × Call) → Db
unfolding int_fits opt_int_fits text_fits opt_text_fits job_refs_fit job_numbers_fit job_fits
    attempt_refs_fit attempt_fits lease_fits worker_refs_fit worker_fits run step transaction
    job_checks attempt_checks lease_checks worker_checks claim_job claim_body
    assert_worker_claimable after_pick take_job get_claimable_job heartbeat heartbeat_body
    Heartbeat.check_request Heartbeat.assert_lease_matches Heartbeat.assert_active_claim
    Heartbeat.assert_attempt_owner Heartbeat.start_attempt Heartbeat.report_attempt
    Heartbeat.mark_progress complete_job complete_body Complete.check_request
    Complete.assert_lease_matches Complete.assert_active_claim Complete.assert_attempt_matches
    fail_job fail_body Fail.check_request Fail.assert_lease_matches Fail.assert_active_claim
    Fail.assert_attempt_matches Fail.end_attempt Fail.end_lease Jobs.create_job Jobs.get_by_job_id
    Jobs.assert_claim_owner Jobs.mark_claimed Jobs.mark_running Jobs.mark_succeeded Jobs.mark_failed
    Jobs.mark_cancel_requested Jobs.mark_cancelled Jobs.mark_superseded Attempts.create_attempt
    Attempts.get_attempt_by_attempt_id Attempts.mark_started Attempts.mark_completed
    Attempts.mark_failed Attempts.mark_stale Attempts.mark_timed_out Attempts.assert_attempt_owner
    Leases.create_lease Leases.get_active_lease_by_claim_token Leases.extend_lease
    Leases.release_lease Leases.expire_lease Workers.get_by_worker_id
    Workers.upsert_worker_registration Workers.mark_seen Workers.set_health_status
    Workers.increment_current_job_count Workers.decrement_current_job_count ◌+ℤ◌ ◌-ℤ◌ ◌*ℤ◌
played h = run h empty_db
