-- ===== src/Compiler.antt =====
-- app/compilers/orchestrator/compiler_service.py: what a compile request says, and what a compile
-- takes from outside. No other transaction commits while it runs.
pub mod Packet
pub mod Prompt
pub mod Jobs
pub mod Runs
pub mod Stored
pub mod Found
use ai_video_replication.Common.{Bool, Option, String}
use ai_video_replication.Common.Json.{Json, Dict}
use ai_video_replication.Store.{Time}
use ai_video_replication.Projects.{Database}
use ai_video_replication.Projects.Session.{Outcome}
use ai_video_replication.Tasks.Run.{Run}

-- app/schemas/compile.py: CompileRequest
pub record CompileRequest : Type 0 where
  pub project_id : String
  pub runtime_version : Option String
  pub compile_reason : String
  pub compile_options : Dict
  pub auto_version : Bool
  pub dispatch_jobs : Bool

-- The clock, the new ids (that of a job by its type), `str()` of a list or a dict, and the broker:
-- `delay` takes the call of a task, and gives the id of the message.
pub record Outside (B : Type 0) : Type 0 where
  pub started_at : Time
  pub finished_at : Time
  pub created_at : Time
  pub runtime_id : String
  pub job_id : String → String
  pub job_created_at : String → Time
  pub repr : Json → String
  pub delay : Run → B → Outcome String × B

-- The tables as the session sees them, as they were at the last commit, and the broker.
pub record Transaction (B : Type 0) : Type 0 where
  pub db : Database
  pub saved : Database
  pub broker : B
