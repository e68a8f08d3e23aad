-- ===== src/Runtime/Steps.antt =====
-- A history of the runtime: one transaction after another, each by one request of a worker or of an
-- operator, and each with its own clock and fresh identifiers.
use ai_video_replication.Common.{Option, List, [], ◌∷◌, String, some, none}
use ai_video_replication.Enums.{WorkerHealthStatus}
use ai_video_replication.Store.{RuntimeJob, Db, transaction}
use ai_video_replication.Jobs
use ai_video_replication.Workers
use ai_video_replication.Services.Schemas.{
  World, ClaimJobRequest, HeartbeatRequest, CompleteJobRequest, FailJobRequest,
}
use ai_video_replication.Services.Claim.{claim_job}
use ai_video_replication.Services.Heartbeat.{heartbeat}
use ai_video_replication.Services.Complete.{complete_job}
use ai_video_replication.Services.Fail.{fail_job}

pub data Call : Type 0 where
  claims : ClaimJobRequest → Call
  beats : HeartbeatRequest → Call
  completes : CompleteJobRequest → Call
  fails : FailJobRequest → Call
  creates : RuntimeJob → Call
  requests_cancel : String → Option String → Call
  cancels : String → Option String → Option String → Call
  supersedes : String → String → Call
  sets_health : String → WorkerHealthStatus → Call

-- The database after a call, whether it returned or raised.
unfoldable pub step : World → Call → Db → Db
step env (Call.claims r) db = (claim_job env r db).1
step env (Call.beats r) db = (heartbeat env r db).1
step env (Call.completes r) db = (complete_job env r db).1
step env (Call.fails r) db = (fail_job env r db).1
step env (Call.creates payload) db = (transaction (Jobs.create_job env.utcnow payload) db).1
step env (Call.requests_cancel job_id reason) db =
    (transaction (Jobs.mark_cancel_requested env.utcnow job_id reason (some env.now)) db).1
step env (Call.cancels job_id claim_token worker_id) db =
    (transaction
      (Jobs.mark_cancelled env.utcnow job_id claim_token worker_id (some env.now) none none) db).1
step env (Call.supersedes job_id by_job_id) db =
    (transaction (Jobs.mark_superseded env.utcnow job_id by_job_id (some env.now) none none) db).1
step env (Call.sets_health worker_id status) db =
    (transaction (Workers.set_health_status env.utcnow worker_id status (some env.now)) db).1

unfoldable pub run : List (World × Call) → Db → Db
unfolding step
run [] db = db
run ((env, call) ∷ rest) db = run rest (step env call db)

abbrev pub empty_db : Db
empty_db = record { jobs = []; attempts = []; leases = []; workers = [] }
