-- ===== src/Runtime/Invariant/Operators.antt =====
-- The invariant across the operations outside the claim cycle: a new job, a cancellation, a job that
-- another replaces, and a change of a worker's health.
use ai_video_replication.Common.{◌≡◌, refl, false, [], ◌∷◌, ◌++◌, String, eq_iff, arith}
use ai_video_replication.Store.{RuntimeJob, WorkerRegistry, Db}
use ai_video_replication.Jobs
use ai_video_replication.Workers
use ai_video_replication.Runtime.View.{
  lease_room-le, lease_room-write, job_count_of-write, lease_room-add,
}
use ai_video_replication.Runtime.Invariant.{Inv, unique-write}
use ai_video_replication.Common.{count-append, count-none_of_any, any}
use ai_video_replication.Enums.{WorkerHealthStatus}
use ai_video_replication.Store.{Time}
use ai_video_replication.Jobs.Effects as JobEffects
use ai_video_replication.Workers.Effects as WorkerEffects
use ai_video_replication.Runtime.Invariant.{Fits-write, Fits-at, job_count_at}

-- A job may be moved out of the queue whatever lease is on it.
pub unqueued-Inv :
    (k : String) (f : RuntimeJob → RuntimeJob) (db db' : Db) (job' : RuntimeJob)
    → ((b : RuntimeJob) → RuntimeJob.job_id (f b) ≡ RuntimeJob.job_id b)
    → ((b : RuntimeJob) → Jobs.is_claimable (RuntimeJob.job_status (f b)) ≡ false)
    → JobEffects.Wrote k f db job' db'
    → Inv db
    → Inv db'
unqueued-Inv k f db db' job' keep off x v = record {
  unique = λ j. rw x.after (unique-write k f db.jobs keep v.unique j);
  exclusive = λ j. rw x.after (
      ground (
        arith,
        v.exclusive j,
        lease_room-le j db.jobs,
        off x.row,
        lease_room-write k j f db.jobs x.row keep x.is_row.found,
      ));
  counted = λ w. rw x.after (v.counted w);
  within = λ w. rw x.after (v.within w);
}

pub created-Inv :
    (db db' : Db) (job : RuntimeJob)
    → any (Jobs.has_id job.job_id) db.jobs ≡ false
    → db' ≡ record db { jobs = db.jobs ++ job ∷ [] }
    → Inv db
    → Inv db'
created-Inv db db' job fresh after v = record {
  unique = λ j. rw after (
      ground (
        arith,
        count-append (Jobs.has_id j) db.jobs (job ∷ []),
        count-none_of_any (Jobs.has_id job.job_id) db.jobs fresh,
        eq_iff job.job_id j,
        v.unique j,
      ));
  exclusive = λ j. rw after (omega (arith, v.exclusive j, lease_room-add j db.jobs job));
  counted = λ w. rw after (v.counted w);
  within = λ w. rw after (v.within w);
}

pub health-Inv :
    (k : String) (s : WorkerHealthStatus) (at : Time) (db db' : Db) (w' : WorkerRegistry)
    → WorkerEffects.Wrote k (Workers.with_health s at) db w' db'
    → Inv db
    → Inv db'
health-Inv k s at db db' w' x v =
    let f = Workers.with_health s at in
    record {
      unique = λ j. rw x.after (v.unique j);
      exclusive = λ j. rw x.after (v.exclusive j);
      counted = λ w. rw x.after (
          ground (
            arith,
            v.counted w,
            job_count_at k w db.workers x.row x.is_row.found,
            job_count_of-write k w f db.workers x.row (λ b. refl) x.is_row.found,
          ));
      within = λ w. rw x.after (
          Fits-write k w f db.workers x.row (λ b. refl) x.is_row.found
            (Fits-at k db.workers x.row x.is_row.found (v.within k)) (v.within w));
    }
