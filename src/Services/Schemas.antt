-- ===== src/Services/Schemas.antt =====
-- The requests and results of app/schemas/runtime.py, and what a transaction takes from outside:
-- the clock, fresh ids, and the rows that other transactions hold.
use ai_video_replication.Common.{ℕ, ℤ, pos, ◌+ℤ◌, ◌*ℤ◌, Bool, Option, List, String}
use ai_video_replication.Common.Json.{Dict}
use ai_video_replication.Enums.{JobStatus, AttemptStatus, LeaseStatus}
use ai_video_replication.Store.{Time, RuntimeJob}

pub record ClaimJobRequest : Type 0 where
  pub worker_id : String
  pub worker_type : String
  pub hostname : String
  pub pid : Option ℤ
  pub version : Option String
  pub queue_name : Option String
  pub routing_key : Option String
  pub worker_capability_tags : List String
  pub queue_bindings : List String
  pub max_concurrency : ℤ
  pub lease_timeout_seconds_override : Option ℤ
  pub lease_max_extensions : ℤ
  pub metadata_json : Dict

pub record ClaimJobResult : Type 0 where
  pub job_id : String
  pub attempt_id : String
  pub lease_id : String
  pub claim_token : String
  pub job_status : JobStatus
  pub attempt_status : AttemptStatus
  pub lease_status : LeaseStatus
  pub queue_name : String
  pub priority : ℤ
  pub attempt_index : ℕ
  pub lease_expires_at : Time

pub record HeartbeatRequest : Type 0 where
  pub job_id : String
  pub worker_id : String
  pub claim_token : String
  pub attempt_id : Option String
  pub mark_job_running : Bool
  pub lease_timeout_seconds_override : Option ℤ
  pub metadata_json : Dict

pub record HeartbeatResult : Type 0 where
  pub job_id : String
  pub lease_id : String
  pub claim_token : String
  pub job_status : JobStatus
  pub lease_status : LeaseStatus
  pub attempt_status : Option AttemptStatus
  pub heartbeat_count : ℕ
  pub extension_count : ℕ
  pub lease_expires_at : Time

pub record CompleteJobRequest : Type 0 where
  pub job_id : String
  pub attempt_id : String
  pub worker_id : String
  pub claim_token : String
  pub completion_status : Option String
  pub terminal_reason : Option String
  pub result_ref : Option String
  -- a UUID by its text
  pub manifest_artifact_id : Option String
  pub runtime_ms : Option ℤ
  pub provider_runtime_ms : Option ℤ
  pub upload_ms : Option ℤ
  pub metadata_json : Dict

pub record FailJobRequest : Type 0 where
  pub job_id : String
  pub attempt_id : String
  pub worker_id : String
  pub claim_token : String
  pub next_job_status : JobStatus
  pub attempt_terminal_status : AttemptStatus
  pub terminal_reason : Option String
  pub error_code : Option String
  pub error_message : Option String
  pub error_payload_json : Dict
  pub expire_lease : Bool
  pub metadata_json : Dict

-- `CompleteJobResult` and `FailJobResult`, which have the same fields
pub record EndJobResult : Type 0 where
  pub job_id : String
  pub attempt_id : String
  pub lease_id : String
  pub job_status : JobStatus
  pub attempt_status : AttemptStatus
  pub lease_status : LeaseStatus
  pub worker_id : String
  pub current_job_count : ℕ
  pub finished_at : Time
  pub metadata_json : Dict

-- What one transaction takes from its surroundings. `now` is the reading at its start and `utcnow`
-- any later one; `elapsed_ms d` is `int(d.total_seconds() * 1000)`, computed in floats.
pub record World : Type 0 where
  pub now : Time
  pub utcnow : Time
  pub claim_token : String
  pub attempt_id : String
  pub lease_id : String
  pub elapsed_ms : Time → ℤ
  pub locked : RuntimeJob → Bool

-- `now + timedelta(seconds=seconds)`
abbrev pub after_seconds : Time → ℤ → Time
after_seconds now seconds = now +ℤ seconds *ℤ pos 1000000
