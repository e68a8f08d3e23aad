-- ===== src/Store/Rows.antt =====
-- The tables of app/models: runtime_jobs, job_attempts, worker_leases and worker_registry, column by
-- column, with their CHECK constraints. Times are in microseconds. The surrogate key `id` and
-- `updated_at`, which no code reads, are left out, and so are an
-- attempt's cost and credit columns, which none writes. Counters that only grow from 0 are naturals.
use ai_video_replication.Common.{
  ℕ, ◌&&◌, Bool, true, String, ℤ, pos, leb_ℤ, leb, Option, none, some, List,
}
use ai_video_replication.Common.Json.{Dict}
use ai_video_replication.Enums.{
  JobStatus, AttemptType, AttemptStatus, LeaseStatus, WorkerHealthStatus,
}

-- A `timestamptz`.
abbrev pub Time : Type 0
Time = ℤ

pub record RuntimeJob : Type 0 where
  pub job_id : String
  pub job_type : String
  pub job_status : JobStatus
  pub project_id : Option String
  pub workflow_run_id : Option String
  pub segment_id : Option String
  pub execution_unit_id : Option String
  pub compile_ref : Option String
  pub validator_ref : Option String
  pub parent_job_id : Option String
  pub superseded_by_job_id : Option String
  pub retry_ticket_ref : Option String
  pub priority : ℤ
  pub queue_name : String
  pub routing_key : Option String
  pub worker_capability_tags_json : List String
  pub source_type : Option String
  pub source_ref : Option String
  pub claimed_by_worker_id : Option String
  pub active_claim_token : Option String
  pub attempt_count : ℕ
  pub infra_rerun_count : ℕ
  pub max_attempts : ℤ
  pub max_infra_reruns : ℤ
  pub lease_timeout_seconds : ℤ
  pub heartbeat_interval_seconds : ℤ
  pub stale_after_seconds : ℤ
  pub created_at : Time
  pub queued_at : Option Time
  pub claimed_at : Option Time
  pub started_at : Option Time
  pub finished_at : Option Time
  pub lease_expires_at : Option Time
  pub cancel_requested_at : Option Time
  pub cancel_reason : Option String
  pub terminal_reason_code : Option String
  pub terminal_reason_message : Option String
  pub idempotency_key : Option String
  pub request_hash : Option String
  pub trace_id : Option String
  pub metadata_json : Dict

pub record JobAttempt : Type 0 where
  pub attempt_id : String
  pub job_id : String
  pub attempt_index : ℕ
  pub attempt_type : AttemptType
  pub attempt_status : AttemptStatus
  pub worker_id : Option String
  pub claim_token : Option String
  pub provider_name : Option String
  pub provider_model : Option String
  pub provider_run_id : Option String
  pub started_at : Option Time
  pub finished_at : Option Time
  pub completion_status : Option String
  pub error_code : Option String
  pub error_message : Option String
  pub error_payload_json : Dict
  pub result_ref : Option String
  pub manifest_artifact_id : Option String
  pub queue_wait_ms : Option ℤ
  pub runtime_ms : Option ℤ
  pub provider_runtime_ms : Option ℤ
  pub upload_ms : Option ℤ
  pub metrics_json : Dict
  pub metadata_json : Dict

pub record WorkerLease : Type 0 where
  pub lease_id : String
  pub job_id : String
  pub attempt_id : Option String
  pub worker_id : String
  pub claim_token : String
  pub lease_status : LeaseStatus
  pub lease_started_at : Time
  pub lease_expires_at : Time
  pub last_heartbeat_at : Option Time
  pub heartbeat_count : ℕ
  pub extension_count : ℕ
  pub max_extensions : ℤ
  pub revoked_at : Option Time
  pub revoked_reason : Option String
  pub metadata_json : Dict

pub record WorkerRegistry : Type 0 where
  pub worker_id : String
  pub worker_type : String
  pub hostname : String
  pub pid : Option ℤ
  pub version : Option String
  pub capability_tags_json : List String
  pub queue_bindings_json : List String
  pub health_status : WorkerHealthStatus
  pub current_job_count : ℕ
  pub max_concurrency : ℤ
  pub started_at : Time
  pub last_seen_at : Time
  pub draining_at : Option Time
  pub offline_at : Option Time
  pub metadata_json : Dict

-- A CHECK of a nullable column passes on NULL.
abbrev pub check_ms : Option ℤ → Bool
check_ms none = true
check_ms (some n) = leb_ℤ (pos 0) n

unfoldable pub job_checks : RuntimeJob → Bool
job_checks j =
    leb_ℤ (pos 0) j.priority
    && (leb_ℤ (pos 1) j.max_attempts
        && (leb_ℤ (pos 0) j.max_infra_reruns
            && (leb_ℤ (pos 1) j.lease_timeout_seconds
                && (leb_ℤ (pos 1) j.heartbeat_interval_seconds
                    && leb_ℤ (pos 1) j.stale_after_seconds))))

unfoldable pub attempt_checks : JobAttempt → Bool
attempt_checks a =
    leb 1 a.attempt_index
    && (check_ms a.queue_wait_ms
        && (check_ms a.runtime_ms && (check_ms a.provider_runtime_ms && check_ms a.upload_ms)))

unfoldable pub lease_checks : WorkerLease → Bool
lease_checks l = leb_ℤ (pos 0) l.max_extensions

unfoldable pub worker_checks : WorkerRegistry → Bool
worker_checks w = leb_ℤ (pos 1) w.max_concurrency

pub record Db : Type 0 where
  pub jobs : List RuntimeJob
  pub attempts : List JobAttempt
  pub leases : List WorkerLease
  pub workers : List WorkerRegistry
