-- ===== src/Runtime/Runs.antt =====
-- The repository operations that a completion calls, run on rows that are there and are the caller's.
use ai_video_replication.Common.{
  ℕ, ◌≡◌, refl, true, Option, some, String, ◌==◌, eq_iff, option_is, arith, count, find,
  update_where,
}
use ai_video_replication.Enums.{JobStatus}
use ai_video_replication.Store.{
  Time, RuntimeJob, JobAttempt, WorkerLease, WorkerRegistry, Db, ok, attempt_checks, worker_checks,
  job_fits, attempt_fits, lease_fits, worker_fits, scalar-of_one,
}
use ai_video_replication.Jobs
use ai_video_replication.Jobs.Effects as JobEffects
use ai_video_replication.Attempts
use ai_video_replication.Attempts.Effects as AttemptEffects
use ai_video_replication.Leases
use ai_video_replication.Leases.Effects as LeaseEffects
use ai_video_replication.Workers
use ai_video_replication.Workers.Effects as WorkerEffects

pub is_same : (o : Option String) (s : String) → o ≡ some s → option_is o s ≡ true
is_same o s h = rw h ((eq_iff s s).1 refl)

pub same : (a b : String) → a ≡ b → (a == b) ≡ true
same a b h = (eq_iff a b).1 h

pub mark_completed-runs :
    (utcnow : Time) (k code : String) (at : Option Time) (f : Attempts.Report) (db : Db)
    (a : JobAttempt)
    → AttemptEffects.IsRow db k a
    → attempt_fits (Attempts.completed code at utcnow f a) ≡ true
    → attempt_checks (Attempts.completed code at utcnow f a) ≡ true
    → Attempts.mark_completed utcnow k code at f db
      ≡ ok (
        Attempts.completed code at utcnow f a,
        record db {
          attempts =
              update_where (Attempts.has_id k) (Attempts.completed code at utcnow f) db.attempts;
        },
      )
unfolding Attempts.mark_completed
mark_completed-runs utcnow k code at f db a row fit h =
    ground
      (arith, scalar-of_one (Attempts.has_id k) db.attempts a row.one row.found, fit, h, row.id)

pub mark_succeeded-runs :
    (utcnow : Time) (k t w : String) (at : Option Time) (code message : Option String) (db : Db)
    (job : RuntimeJob)
    → JobEffects.IsRow db k job
    → JobEffects.IsOwned job t w
    → job_fits (Jobs.finished JobStatus.succeeded at utcnow code message job) ≡ true
    → Jobs.mark_succeeded utcnow k t w at code message db
      ≡ ok (
        Jobs.finished JobStatus.succeeded at utcnow code message job,
        record db {
          jobs =
              update_where
                (Jobs.has_id k)
                (Jobs.finished JobStatus.succeeded at utcnow code message)
                db.jobs;
        },
      )
unfolding Jobs.mark_succeeded
mark_succeeded-runs utcnow k t w at code message db job row owned fit = ground (
  arith,
  fit,
  scalar-of_one (Jobs.has_id k) db.jobs job row.one row.found,
  is_same job.active_claim_token t owned.by_token,
  is_same job.claimed_by_worker_id w owned.by_worker,
  row.id,
)

pub release_lease-runs :
    (utcnow : Time) (t w : String) (at : Option Time) (db : Db) (l : WorkerLease)
    → LeaseEffects.Holds db t l
    → l.worker_id ≡ w
    → lease_fits (Leases.released at utcnow l) ≡ true
    → Leases.release_lease utcnow t w at db
      ≡ ok (
        Leases.released at utcnow l,
        record db {
          leases = update_where (Leases.active_with t) (Leases.released at utcnow) db.leases;
        },
      )
unfolding Leases.release_lease
release_lease-runs utcnow t w at db l held mine fit = ground (
  arith,
  fit,
  scalar-of_one (Leases.active_with t) db.leases l held.one held.found,
  same l.worker_id w mine,
  held.token,
)

pub decrement_current_job_count-runs :
    (k : String) (delta : ℕ) (db : Db) (w : WorkerRegistry)
    → WorkerEffects.IsRow db k w
    → worker_fits (Workers.decremented delta w) ≡ true
    → worker_checks w ≡ true
    → Workers.decrement_current_job_count k delta db
      ≡ ok (
        Workers.decremented delta w,
        record db {
          workers = update_where (Workers.has_id k) (Workers.decremented delta) db.workers;
        },
      )
unfolding Workers.decrement_current_job_count worker_checks
decrement_current_job_count-runs k delta db w row fit h =
    ground (arith, scalar-of_one (Workers.has_id k) db.workers w row.one row.found, fit, h, row.id)

pub mark_seen-runs :
    (utcnow : Time) (k : String) (at : Option Time) (db : Db) (w : WorkerRegistry)
    → count (Workers.has_id k) db.workers ≡ 1
    → find (Workers.has_id k) db.workers ≡ some w
    → w.worker_id ≡ k
    → worker_fits (Workers.seen at utcnow w) ≡ true
    → worker_checks w ≡ true
    → Workers.mark_seen utcnow k at db
      ≡ ok (
        Workers.seen at utcnow w,
        record db { workers = update_where (Workers.has_id k) (Workers.seen at utcnow) db.workers },
      )
unfolding Workers.mark_seen worker_checks
mark_seen-runs utcnow k at db w one found id fit h =
    ground (arith, scalar-of_one (Workers.has_id k) db.workers w one found, fit, h, id)
