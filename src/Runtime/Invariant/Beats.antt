-- ===== src/Runtime/Invariant/Beats.antt =====
-- The invariant across a heartbeat.
use ai_video_replication.Common.{
  ◌≤◌, ◌≡◌, refl, inl, inr, Bool, Option, some, List, String, arith, count, find, count-update_keep,
  update_where,
}
use ai_video_replication.Store.{RuntimeJob, WorkerLease, WorkerRegistry, Db}
use ai_video_replication.Jobs
use ai_video_replication.Leases
use ai_video_replication.Workers
use ai_video_replication.Services.Schemas.{World, HeartbeatRequest}
use ai_video_replication.Runtime.View.{
  lease_room-le, held_by, lease_room, job_count_of, lease_room-write, job_count_of-write,
}
use ai_video_replication.Runtime.Invariant.{job_count_at, Inv, unique-write}
use ai_video_replication.Services.Schemas.{HeartbeatResult}
use ai_video_replication.Services.Heartbeat.Progress as HeartbeatProgress
use ai_video_replication.Services.Heartbeat.Effects as HeartbeatEffects
use ai_video_replication.Store.{Time}
use ai_video_replication.Runtime.Invariant.{Fits, Fits-write, Fits-at}

-- A time written to a worker's row leaves its count and its capacity.
pub Fits-seen :
    (k w : String) (at : Option Time) (utcnow : Time) (ws : List WorkerRegistry)
    (row : WorkerRegistry)
    → find (Workers.has_id k) ws ≡ some row
    → ((v : String) → Fits (find (Workers.has_id v) ws))
    → Fits (find (Workers.has_id w) (update_where (Workers.has_id k) (Workers.seen at utcnow) ws))
Fits-seen k w at utcnow ws row e h =
    Fits-write k w (Workers.seen at utcnow) ws row (λ b. refl) e (Fits-at k ws row e (h k)) (h w)

pub job_count_of-seen :
    (k w : String) (at : Option Time) (utcnow : Time) (ws : List WorkerRegistry)
    (row : WorkerRegistry)
    → find (Workers.has_id k) ws ≡ some row
    → job_count_of w (update_where (Workers.has_id k) (Workers.seen at utcnow) ws)
      ≡ job_count_of w ws
job_count_of-seen k w at utcnow ws row e = ground (
  arith,
  job_count_of-write k w (Workers.seen at utcnow) ws row (λ b. refl) e,
  job_count_at k w ws row e,
)

ran_room :
    (env : World) (k j : String) (jobs : List RuntimeJob) (job : RuntimeJob)
    → find (Jobs.has_id k) jobs ≡ some job
    → lease_room j jobs
      ≤ lease_room j (update_where (Jobs.has_id k) (HeartbeatProgress.run_job env) jobs)
ran_room env k j jobs job e = ground (
  arith,
  lease_room-write k j (HeartbeatProgress.run_job env) jobs job (λ b. refl) e,
  lease_room-le j jobs,
)

kept_leases :
    (env : World) (r : HeartbeatRequest) (job : RuntimeJob) (q : WorkerLease → Bool) (db : Db)
    → ((l : WorkerLease) → q (HeartbeatEffects.kept_lease env r job l) ≡ q l)
    → count q (
        update_where
          (Leases.active_with r.claim_token)
          (HeartbeatEffects.kept_lease env r job)
          db.leases)
      ≡ count q db.leases
kept_leases env r job q db keep =
    count-update_keep (Leases.active_with r.claim_token) q (HeartbeatEffects.kept_lease env r job)
      db.leases keep

pub heartbeat-Inv :
    (env : World) (r : HeartbeatRequest) (db db' : Db) (res : HeartbeatResult)
    → HeartbeatEffects.Beaten env r db res db'
    → Inv db
    → Inv db'
heartbeat-Inv env r db db' res c v = record {
  unique = λ j. elim c.outcome [
    | inl (_, _, e) ↦ rw e (v.unique j)
    | inr (_, _, _, e) ↦
        rw e (unique-write r.job_id (HeartbeatProgress.run_job env) db.jobs (λ b. refl) v.unique j)
  ];
  exclusive = λ j.
      let kept = kept_leases env r c.job (Leases.active_on j) db (λ l. refl) in
      elim c.outcome [
        | inl (_, _, e) ↦ rw (c.leases, kept, e) (v.exclusive j)
        | inr (_, _, _, e) ↦
            rw (c.leases, kept, e)
              (omega (
                arith,
                v.exclusive j,
                ran_room env r.job_id j db.jobs c.job c.holder.job_row.found,
              ))
      ];
  counted = λ w.
      rw (c.leases, kept_leases env r c.job (held_by w) db (λ l. refl), c.workers)
        (omega (
          arith,
          v.counted w,
          job_count_of-seen r.worker_id w (some env.now) env.utcnow db.workers c.worker
              c.worker_found,
        ));
  within = λ w. rw c.workers (
      Fits-seen r.worker_id w (some env.now) env.utcnow db.workers c.worker c.worker_found
        v.within);
}
