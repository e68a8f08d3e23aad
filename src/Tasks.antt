-- ===== src/Tasks.antt =====
-- app/workers/tasks.py: the Celery tasks that run a job of a compiled runtime: what they take from an
-- executor and from the object store, and the state they work on.
pub mod Content
pub mod Storage
pub mod Assets
pub mod Materialize
pub mod Marks
pub mod Run
pub mod Entry
pub mod Effects
pub mod Jobs
pub mod Parts
pub mod Outcomes
pub mod Stored
pub mod Placement
pub mod Failures
use ai_video_replication.Common.{ℕ, Option, none, some, List, String, ℤ}
use ai_video_replication.Common.Json.{Json, Dict}
use ai_video_replication.Common.Text.{Text}
use ai_video_replication.Store.{Time}
use ai_video_replication.Assets.{Buckets}
use ai_video_replication.Projects.{Database}
use ai_video_replication.Projects.Session.{Exn, Outcome}

abbrev pub Bytes : Type 0
Bytes = List ℕ

-- What stands under `binary_payload`.
pub data Payload : Type 0 where
  bytes : Bytes → Payload
  bytearray : Bytes → Payload
  memoryview : Bytes → Payload
  text : String → Payload
  other : Payload

-- The dict of `ProviderExecutionResult.to_dict()`; a key that is not there is None.
pub record ExecutionResult : Type 0 where
  pub status : Option String
  pub provider : Option String
  pub output_filename : Option String
  pub provider_payload : Option Json
  pub binary_payload : Option Payload
  pub text_payload : Option String
  pub content_type : Option String

pub record AssetPlan : Type 0 where
  pub asset_type : String
  pub asset_role : String
  pub filename : String
  pub content_type : String

-- What minio answers on `stat_object` and on `put_object`.
pub record Stat : Type 0 where
  pub etag : Option String
  pub version_id : Option String
  pub size : Option ℤ
  pub content_type : Option String

pub record Written : Type 0 where
  pub etag : Option String
  pub version_id : Option String

-- The database of a session, and the objects that the store holds.
pub record World (S : Type 0) : Type 0 where
  pub db : Database
  pub objects : S

-- What a task takes from outside: minio's client, the settings, the clock, a fresh id, and
-- `UUID(str(value))`, which raises ValueError on a text that is not an id.
pub record Surroundings (S : Type 0) : Type 0 where
  pub stat_object : String → Text → S → Outcome Stat
  pub put_object : String → Text → Bytes → String → S → Outcome Written × S
  pub bucket_map : Buckets
  pub uuid : Json → Option String
  pub started_at : Time
  pub worker_finished_at : Time
  pub finished_at : Time
  -- of the one asset that a run adds, or adds again after a rollback
  pub asset_id : String
  pub asset_created_at : Time
