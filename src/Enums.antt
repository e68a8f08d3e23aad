-- ===== src/Enums.antt =====
-- The status vocabularies of app/enums/runtime.py and app/enums/worker.py: each `class X(str, Enum)`
-- is a data type, and `value` is the text that the member is stored and compared as.
use ai_video_replication.Common.{String}

pub data JobType : Type 0 where
  compile render_image render_video render_audio merge qa delivery callback : JobType

pub data JobStatus : Type 0 where
  created queued claimed running waiting_retry succeeded failed cancel_requested cancelled
        superseded stale dead_lettered :
      JobStatus

pub data AttemptType : Type 0 where
  primary retry infra_rerun recovery manual_retry : AttemptType

pub data AttemptStatus : Type 0 where
  created claimed started provider_running artifact_collecting completed failed timed_out cancelled
        superseded stale :
      AttemptStatus

pub data LeaseStatus : Type 0 where
  active released expired revoked : LeaseStatus

pub data WorkerHealthStatus : Type 0 where
  starting healthy degraded draining offline : WorkerHealthStatus

-- `JobType.X.value`
unfoldable pub job_type_value : JobType → String
job_type_value JobType.compile = "COMPILE"
job_type_value JobType.render_image = "RENDER_IMAGE"
job_type_value JobType.render_video = "RENDER_VIDEO"
job_type_value JobType.render_audio = "RENDER_AUDIO"
job_type_value JobType.merge = "MERGE"
job_type_value JobType.qa = "QA"
job_type_value JobType.delivery = "DELIVERY"
job_type_value JobType.callback = "CALLBACK"

-- `JobStatus.X.value`
unfoldable pub job_status_value : JobStatus → String
job_status_value JobStatus.created = "CREATED"
job_status_value JobStatus.queued = "QUEUED"
job_status_value JobStatus.claimed = "CLAIMED"
job_status_value JobStatus.running = "RUNNING"
job_status_value JobStatus.waiting_retry = "WAITING_RETRY"
job_status_value JobStatus.succeeded = "SUCCEEDED"
job_status_value JobStatus.failed = "FAILED"
job_status_value JobStatus.cancel_requested = "CANCEL_REQUESTED"
job_status_value JobStatus.cancelled = "CANCELLED"
job_status_value JobStatus.superseded = "SUPERSEDED"
job_status_value JobStatus.stale = "STALE"
job_status_value JobStatus.dead_lettered = "DEAD_LETTERED"

-- `AttemptType.X.value`
unfoldable pub attempt_type_value : AttemptType → String
attempt_type_value AttemptType.primary = "PRIMARY"
attempt_type_value AttemptType.retry = "RETRY"
attempt_type_value AttemptType.infra_rerun = "INFRA_RERUN"
attempt_type_value AttemptType.recovery = "RECOVERY"
attempt_type_value AttemptType.manual_retry = "MANUAL_RETRY"

-- `AttemptStatus.X.value`
unfoldable pub attempt_status_value : AttemptStatus → String
attempt_status_value AttemptStatus.created = "CREATED"
attempt_status_value AttemptStatus.claimed = "CLAIMED"
attempt_status_value AttemptStatus.started = "STARTED"
attempt_status_value AttemptStatus.provider_running = "PROVIDER_RUNNING"
attempt_status_value AttemptStatus.artifact_collecting = "ARTIFACT_COLLECTING"
attempt_status_value AttemptStatus.completed = "COMPLETED"
attempt_status_value AttemptStatus.failed = "FAILED"
attempt_status_value AttemptStatus.timed_out = "TIMED_OUT"
attempt_status_value AttemptStatus.cancelled = "CANCELLED"
attempt_status_value AttemptStatus.superseded = "SUPERSEDED"
attempt_status_value AttemptStatus.stale = "STALE"

-- `LeaseStatus.X.value`
unfoldable pub lease_status_value : LeaseStatus → String
lease_status_value LeaseStatus.active = "ACTIVE"
lease_status_value LeaseStatus.released = "RELEASED"
lease_status_value LeaseStatus.expired = "EXPIRED"
lease_status_value LeaseStatus.revoked = "REVOKED"

-- `WorkerHealthStatus.X.value`
unfoldable pub health_status_value : WorkerHealthStatus → String
health_status_value WorkerHealthStatus.starting = "STARTING"
health_status_value WorkerHealthStatus.healthy = "HEALTHY"
health_status_value WorkerHealthStatus.degraded = "DEGRADED"
health_status_value WorkerHealthStatus.draining = "DRAINING"
health_status_value WorkerHealthStatus.offline = "OFFLINE"
