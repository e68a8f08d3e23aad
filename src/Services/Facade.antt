-- ===== src/Services/Facade.antt =====
-- app/services/runtime_terminal_facade.py and the view records of app/schemas/runtime.py: a job with
-- its latest attempt and its active lease, in one answer.
use ai_video_replication.Common.{ℕ, ℤ, Option, none, some, String}
use ai_video_replication.Common.Json.{Dict}
use ai_video_replication.Enums.{JobStatus, AttemptStatus, LeaseStatus}
use ai_video_replication.Store.{Time, RuntimeJob, JobAttempt, WorkerLease, M, ◌>>=◌, pure}
use ai_video_replication.Jobs
use ai_video_replication.Attempts
use ai_video_replication.Leases

pub record RuntimeJobTerminalAttemptView : Type 0 where
  pub attempt_id : String
  pub attempt_status : AttemptStatus
  pub attempt_index : ℕ
  pub worker_id : Option String
  pub claim_token : Option String
  pub started_at : Option Time
  pub finished_at : Option Time
  pub completion_status : Option String
  pub error_code : Option String
  pub error_message : Option String
  pub error_payload_json : Dict
  pub result_ref : Option String
  pub manifest_artifact_id : Option String
  pub runtime_ms : Option ℤ
  pub provider_runtime_ms : Option ℤ
  pub upload_ms : Option ℤ
  pub metrics_json : Dict
  pub metadata_json : Dict

pub record RuntimeJobTerminalLeaseView : Type 0 where
  pub lease_id : String
  pub job_id : String
  pub attempt_id : Option String
  pub worker_id : String
  pub claim_token : String
  pub lease_status : LeaseStatus
  pub lease_started_at : Time
  pub lease_expires_at : Time
  pub last_heartbeat_at : Option Time
  pub heartbeat_count : ℕ
  pub extension_count : ℕ
  pub revoked_at : Option Time
  pub revoked_reason : Option String
  pub metadata_json : Dict

pub record RuntimeJobTerminalView : Type 0 where
  pub job_id : String
  pub job_status : JobStatus
  pub claimed_by_worker_id : Option String
  pub active_claim_token : Option String
  pub attempt_count : ℕ
  pub queued_at : Option Time
  pub claimed_at : Option Time
  pub started_at : Option Time
  pub finished_at : Option Time
  pub lease_expires_at : Option Time
  pub terminal_reason_code : Option String
  pub terminal_reason_message : Option String
  pub metadata_json : Dict
  pub latest_attempt : Option RuntimeJobTerminalAttemptView
  pub active_lease : Option RuntimeJobTerminalLeaseView

abbrev pub attempt_view : JobAttempt → RuntimeJobTerminalAttemptView
attempt_view a = record {
  attempt_id = a.attempt_id;
  attempt_status = a.attempt_status;
  attempt_index = a.attempt_index;
  worker_id = a.worker_id;
  claim_token = a.claim_token;
  started_at = a.started_at;
  finished_at = a.finished_at;
  completion_status = a.completion_status;
  error_code = a.error_code;
  error_message = a.error_message;
  error_payload_json = a.error_payload_json;
  result_ref = a.result_ref;
  manifest_artifact_id = a.manifest_artifact_id;
  runtime_ms = a.runtime_ms;
  provider_runtime_ms = a.provider_runtime_ms;
  upload_ms = a.upload_ms;
  metrics_json = a.metrics_json;
  metadata_json = a.metadata_json;
}

abbrev pub lease_view : WorkerLease → RuntimeJobTerminalLeaseView
lease_view l = record {
  lease_id = l.lease_id;
  job_id = l.job_id;
  attempt_id = l.attempt_id;
  worker_id = l.worker_id;
  claim_token = l.claim_token;
  lease_status = l.lease_status;
  lease_started_at = l.lease_started_at;
  lease_expires_at = l.lease_expires_at;
  last_heartbeat_at = l.last_heartbeat_at;
  heartbeat_count = l.heartbeat_count;
  extension_count = l.extension_count;
  revoked_at = l.revoked_at;
  revoked_reason = l.revoked_reason;
  metadata_json = l.metadata_json;
}

abbrev pub map_option : {A B : Type 0} → (A → B) → Option A → Option B
map_option f none = none
map_option f (some a) = some (f a)

abbrev pub terminal_view :
    RuntimeJob → Option JobAttempt → Option WorkerLease → RuntimeJobTerminalView
terminal_view job attempt lease = record {
  job_id = job.job_id;
  job_status = job.job_status;
  claimed_by_worker_id = job.claimed_by_worker_id;
  active_claim_token = job.active_claim_token;
  attempt_count = job.attempt_count;
  queued_at = job.queued_at;
  claimed_at = job.claimed_at;
  started_at = job.started_at;
  finished_at = job.finished_at;
  lease_expires_at = job.lease_expires_at;
  terminal_reason_code = job.terminal_reason_code;
  terminal_reason_message = job.terminal_reason_message;
  metadata_json = job.metadata_json;
  latest_attempt = map_option attempt_view attempt;
  active_lease = map_option lease_view lease;
}

-- `if job is None: return None`, and the rest otherwise
unfoldable pub view_of : String → Option RuntimeJob → M (Option RuntimeJobTerminalView)
view_of job_id none = pure none
view_of job_id (some job) = do
  attempt ← Attempts.get_latest_attempt job_id
  lease ← Leases.get_active_lease_by_job_id job_id
  pure (some (terminal_view job attempt lease))

unfoldable pub get_terminal_view : String → M (Option RuntimeJobTerminalView)
unfolding view_of
get_terminal_view job_id = do job ← Jobs.get_by_job_id job_id; view_of job_id job
