-- ===== src/Runtime/Extensions.antt =====
-- The extensions of leases, counted over a history.
use ai_video_replication.Common.{
  ◌≡◌, refl, pos, ltb_ℤ, ◌≤ℤ◌, inl, inr, Bool, true, false, some, none, List, [], ◌∷◌, String,
  arith, count, In, count-pos, count-update_keep, update_where, Bool-cases,
}
use ai_video_replication.Store.{WorkerLease, Db, commit, commit_plain}
use ai_video_replication.Jobs
use ai_video_replication.Jobs.Effects as JobEffects
use ai_video_replication.Jobs.Cancels.{
  mark_cancel_requested_lem, mark_cancelled_lem, mark_superseded_lem,
}
use ai_video_replication.Leases
use ai_video_replication.Workers
use ai_video_replication.Workers.Effects as WorkerEffects
use ai_video_replication.Services.Schemas.{World}
use ai_video_replication.Services.Claim as Claim
use ai_video_replication.Services.Heartbeat as Heartbeat
use ai_video_replication.Services.Complete as Complete
use ai_video_replication.Services.Fail as Fail
use ai_video_replication.Services.Claim.Effects as ClaimEffects
use ai_video_replication.Services.Heartbeat.Effects as HeartbeatEffects
use ai_video_replication.Services.Complete.Effects as CompleteEffects
use ai_video_replication.Services.Fail.Effects as FailEffects
use ai_video_replication.Runtime.View.{leases-add, leases-write}
use ai_video_replication.Runtime.Invariant.{Inv}
use ai_video_replication.Runtime.Invariant.Ready.{Enrolled-Ready}
use ai_video_replication.Runtime.Steps.{Call, step, run, empty_db}
use ai_video_replication.Runtime.Histories.{step-Inv, empty-Inv}

abbrev pub over_extended : WorkerLease → Bool
over_extended l = ltb_ℤ l.max_extensions (pos l.extension_count)

abbrev NoneOver : Db → Type 0
NoneOver db = count over_extended db.leases ≡ 0

kept_within :
    (f : WorkerLease → WorkerLease) (t : String) (ls : List WorkerLease)
    → ((l : WorkerLease) → over_extended (f l) ≡ over_extended l)
    → count over_extended ls ≡ 0
    → count over_extended (update_where (Leases.active_with t) f ls) ≡ 0
kept_within f t ls keep h = rw (count-update_keep (Leases.active_with t) over_extended f ls keep) h

ended_same :
    (env : World) (b : Bool) (l : WorkerLease)
    → over_extended (FailEffects.ended_lease env b l) ≡ over_extended l
ended_same env true l = refl
ended_same env false l = refl

step-NoneOver :
    (env : World) (call : Call) (db : Db) → Inv db → NoneOver db → NoneOver (step env call db)
unfolding step Claim.claim_job Heartbeat.heartbeat Complete.complete_job Fail.fail_job
step-NoneOver env (Call.claims r) db v h =
    commit NoneOver Claim.map_repository_value_error (Claim.claim_body env r) db h λ o db' e.
      let c = ClaimEffects.claim_body_lem env r db db' o e in
      let d = Enrolled-Ready env r db c.worker c.between c.enrolled v in
      elim c.outcome [
        | inl (_, _, x, s) ↦ rw (s.after, d.leases) h
        | inr (job, _, t) ↦
            rw (t.leases, d.leases)
              (ground (
                arith,
                leases-add over_extended db.leases (ClaimEffects.lease_of env r job),
                t.extensions_size,
                h,
              ))
      ]
step-NoneOver env (Call.beats r) db v h =
    commit NoneOver Heartbeat.map_repository_value_error (Heartbeat.heartbeat_body env r) db h
      λ o db' e.
        let c = HeartbeatEffects.heartbeat_body_lem env r db db' o e in
        rw c.leases (
          ground (
            arith,
            leases-write over_extended r.claim_token (HeartbeatEffects.kept_lease env r c.job) db
                c.holder.lease c.holder.lease_held,
            c.extensible,
            h,
          ))
step-NoneOver env (Call.completes r) db v h =
    commit NoneOver Complete.map_repository_value_error (Complete.complete_body env r) db h
      λ o db' e.
        let c = CompleteEffects.complete_body_lem env r db db' o e in
        rw c.leases
          (kept_within (CompleteEffects.released_lease env) r.claim_token db.leases (λ l. refl) h)
step-NoneOver env (Call.fails r) db v h =
    commit NoneOver Fail.map_repository_value_error (Fail.fail_body env r) db h λ o db' e.
      let c = FailEffects.fail_body_lem env r db db' o e in
      rw c.leases (
        kept_within (FailEffects.ended_lease env r.expire_lease) r.claim_token db.leases
          (ended_same env r.expire_lease) h)
step-NoneOver env (Call.creates payload) db v h =
    commit_plain NoneOver (Jobs.create_job env.utcnow payload) db h
      λ job db' e. rw (JobEffects.create_job_lem env.utcnow payload job db db' e).2 h
step-NoneOver env (Call.requests_cancel k reason) db v h =
    commit_plain NoneOver (Jobs.mark_cancel_requested env.utcnow k reason (some env.now)) db h
      λ job db' e.
        elim (mark_cancel_requested_lem env.utcnow k reason (some env.now) db db' job e) [
          | inl same ↦ rw same h
          | inr x ↦ rw x.after h
        ]
step-NoneOver env (Call.cancels k t w) db v h =
    commit_plain NoneOver (Jobs.mark_cancelled env.utcnow k t w (some env.now) none none) db h
      λ job db' e.
        rw (mark_cancelled_lem env.utcnow k t w (some env.now) none none db db' job e).after h
step-NoneOver env (Call.supersedes k by) db v h =
    commit_plain NoneOver (Jobs.mark_superseded env.utcnow k by (some env.now) none none) db h
      λ job db' e.
        rw (mark_superseded_lem env.utcnow k by (some env.now) none none db db' job e).after h
step-NoneOver env (Call.sets_health k s) db v h =
    commit_plain NoneOver (Workers.set_health_status env.utcnow k s (some env.now)) db h λ w db' e.
      rw (WorkerEffects.set_health_status_lem env.utcnow k s (some env.now) db db' w e).after h

run-NoneOver : (h : List (World × Call)) (db : Db) → Inv db → NoneOver db → NoneOver (run h db)
unfolding run
run-NoneOver [] db v n = n
run-NoneOver ((env, call) ∷ rest) db v n =
    run-NoneOver rest (step env call db) (step-Inv env call db v) (step-NoneOver env call db v n)

-- After any history of calls from the empty database, no lease has been extended more often than its
-- max_extensions.
pub run-extensions :
    (h : List (World × Call)) (l : WorkerLease)
    → In l (run h empty_db).leases
    → pos l.extension_count ≤ℤ l.max_extensions
run-extensions h l m = elim (Bool-cases (over_extended l)) [
  | inl over ↦ absurd (
      omega (
        arith,
        count-pos over_extended (run h empty_db).leases l m over,
        run-NoneOver h empty_db empty-Inv refl,
      ))
  | inr fine ↦ ground (arith, fine)
]
