-- ===== src/Runtime/Tokens.antt =====
-- Claim tokens whose lease has ended, for app/services/runtime_{heartbeat,complete,fail}_service.py.
use ai_video_replication.Common.{
  ◌≡◌, refl, Bool, true, false, ◌++◌, String, arith, count, update_where, count-update, find-holds,
}
use ai_video_replication.Common.Text.{codes}
use ai_video_replication.Store.{
  WorkerLease, Db, ok, err, Exn, lease_conflict, scalar-of_none, returned,
}
use ai_video_replication.Leases
use ai_video_replication.Leases.Effects as LeaseEffects
use ai_video_replication.Services.Schemas.{
  World, HeartbeatRequest, CompleteJobRequest, FailJobRequest, EndJobResult,
}
use ai_video_replication.Services.Heartbeat as Heartbeat
use ai_video_replication.Services.Complete as Complete
use ai_video_replication.Services.Fail as Fail
use ai_video_replication.Services.Complete.Effects as CompleteEffects
use ai_video_replication.Services.Fail.Effects as FailEffects

abbrev pub no_lease : String → Exn
no_lease claim_token =
    lease_conflict (codes "active lease not found for claim_token=" ++ codes claim_token)

heartbeat-no_lease :
    (env : World) (r : HeartbeatRequest) (db : Db)
    → count (Leases.active_with r.claim_token) db.leases ≡ 0
    → Heartbeat.heartbeat env r db ≡ (err (no_lease r.claim_token), db)
unfolding Heartbeat.heartbeat Heartbeat.heartbeat_body Heartbeat.check_request
    Leases.get_active_lease_by_claim_token
heartbeat-no_lease env r db h =
    ground (arith, scalar-of_none (Leases.active_with r.claim_token) db.leases h)

complete_job-no_lease :
    (env : World) (r : CompleteJobRequest) (db : Db)
    → count (Leases.active_with r.claim_token) db.leases ≡ 0
    → Complete.complete_job env r db ≡ (err (no_lease r.claim_token), db)
unfolding Complete.complete_job Complete.complete_body Complete.check_request
    Leases.get_active_lease_by_claim_token
complete_job-no_lease env r db h =
    ground (arith, scalar-of_none (Leases.active_with r.claim_token) db.leases h)

fail_job-no_lease :
    (env : World) (r : FailJobRequest) (db : Db)
    → count (Leases.active_with r.claim_token) db.leases ≡ 0
    → Fail.fail_job env r db ≡ (err (no_lease r.claim_token), db)
unfolding Fail.fail_job Fail.fail_body Fail.check_request Leases.get_active_lease_by_claim_token
fail_job-no_lease env r db h =
    ground (arith, scalar-of_none (Leases.active_with r.claim_token) db.leases h)

-- Every request of a worker that carries this token is refused and leaves the database as it is.
pub record IsSpent (claim_token : String) (db : Db) : Type 0 where
  pub beats :
      (env : World) (r : HeartbeatRequest)
      → r.claim_token ≡ claim_token
      → Heartbeat.heartbeat env r db ≡ (err (no_lease claim_token), db)
  pub completes :
      (env : World) (r : CompleteJobRequest)
      → r.claim_token ≡ claim_token
      → Complete.complete_job env r db ≡ (err (no_lease claim_token), db)
  pub fails :
      (env : World) (r : FailJobRequest)
      → r.claim_token ≡ claim_token
      → Fail.fail_job env r db ≡ (err (no_lease claim_token), db)

IsSpent-make : (t : String) (db : Db) → count (Leases.active_with t) db.leases ≡ 0 → IsSpent t db
IsSpent-make t db h = record {
  beats = λ env r e. rw (← e) (heartbeat-no_lease env r db (rw e h));
  completes = λ env r e. rw (← e) (complete_job-no_lease env r db (rw e h));
  fails = λ env r e. rw (← e) (fail_job-no_lease env r db (rw e h));
}

ended-none :
    (t : String) (f : WorkerLease → WorkerLease) (db : Db) (l : WorkerLease)
    → LeaseEffects.Holds db t l
    → Leases.is_active (WorkerLease.lease_status (f l)) ≡ false
    → count (Leases.active_with t) (update_where (Leases.active_with t) f db.leases) ≡ 0
ended-none t f db l h off = ground (
  arith,
  h.one,
  count-update (Leases.active_with t) (Leases.active_with t) f db.leases l h.one h.found,
  find-holds (Leases.active_with t) db.leases l h.found,
)

ended_inactive :
    (env : World) (b : Bool) (l : WorkerLease)
    → Leases.is_active (WorkerLease.lease_status (FailEffects.ended_lease env b l)) ≡ false
ended_inactive env true l = refl
ended_inactive env false l = refl

-- When complete_job returns, the token of its request is spent: every heartbeat, completion and failure
-- that carries it afterwards raises a lease conflict and leaves the database as it is.
pub complete_job-IsSpent :
    (env : World) (r : CompleteJobRequest) (db db' : Db) (res : EndJobResult)
    → Complete.complete_job env r db ≡ (ok res, db')
    → IsSpent r.claim_token db'
unfolding Complete.complete_job
complete_job-IsSpent env r db db' res eq =
    let c =
      CompleteEffects.complete_body_lem env r db db' res (
        returned Complete.map_repository_value_error (Complete.complete_body env r) db db' res
          eq) in
    IsSpent-make r.claim_token db' (
      rw c.leases (
        ended-none r.claim_token (CompleteEffects.released_lease env) db c.holder.lease
          c.holder.lease_held refl))

-- When fail_job returns, the token of its request is spent in the same way, whatever the request says
-- of the lease and of the job's next status.
pub fail_job-IsSpent :
    (env : World) (r : FailJobRequest) (db db' : Db) (res : EndJobResult)
    → Fail.fail_job env r db ≡ (ok res, db')
    → IsSpent r.claim_token db'
unfolding Fail.fail_job
fail_job-IsSpent env r db db' res eq =
    let c =
      FailEffects.fail_body_lem env r db db' res
        (returned Fail.map_repository_value_error (Fail.fail_body env r) db db' res eq) in
    IsSpent-make r.claim_token db' (
      rw c.leases (
        ended-none r.claim_token (FailEffects.ended_lease env r.expire_lease) db c.holder.lease
          c.holder.lease_held (ended_inactive env r.expire_lease c.holder.lease)))
