-- ===== src/Runtime/Invariant.antt =====
-- The invariant of the repositories' tables taken together: job ids, active leases, and the workers'
-- counts and capacities.
pub mod Ends
pub mod Beats
pub mod Ready
pub mod Claims
pub mod Operators
use ai_video_replication.Common.{
  ℕ, suc, ◌+◌, ◌-◌, ◌≤◌, ◌≡◌, refl, ap, ◌∙◌, inl, inr, ◌⊎◌, ◌&&◌, Bool, true, false, not,
  if◌then◌else◌, pos, leb_ℤ, ◌≤ℤ◌, Option, none, some, List, [], ◌∷◌, ◌++◌, String, ◌==◌, eq_iff,
  arith, bit, count, find, find-update_same, find-write, count-update_keep, find-holds, Bool-cases,
  update_where,
}
use ai_video_replication.Store.{RuntimeJob, WorkerLease, WorkerRegistry, Db, commit}
use ai_video_replication.Jobs
use ai_video_replication.Leases
use ai_video_replication.Workers
use ai_video_replication.Services.Schemas.{
  World, ClaimJobRequest, ClaimJobResult, CompleteJobRequest, EndJobResult, FailJobRequest,
  HeartbeatRequest,
}
use ai_video_replication.Services.Complete.Effects as CompleteEffects
use ai_video_replication.Leases.Effects as LeaseEffects
use ai_video_replication.Runtime.View.{
  lease_room-le, held_by, lease_room, job_count_of, admits, lease_room-write, job_count_of-write,
  job_count_of-add, lease_room-add, leases-write, leases-add,
}

abbrev pub Fits : Option WorkerRegistry → Type 0
Fits none = Unit
Fits (some w) = pos w.current_job_count ≤ℤ w.max_concurrency

pub record Inv (db : Db) : Type 0 where
  pub unique : (j : String) → count (Jobs.has_id j) db.jobs ≤ 1
  pub exclusive : (j : String) → count (Leases.active_on j) db.leases ≤ lease_room j db.jobs
  pub counted : (w : String) → count (held_by w) db.leases ≡ job_count_of w db.workers
  pub within : (w : String) → Fits (find (Workers.has_id w) db.workers)

module _ (k w : String) (ws : List WorkerRegistry) (row : WorkerRegistry)
    (e : find (Workers.has_id k) ws ≡ some row) where
  pub job_count_at : (k == w) ≡ true → job_count_of w ws ≡ row.current_job_count
  job_count_at same = rw (← (eq_iff k w).0 same, e)

  -- Two writes to one worker's row, the second of which keeps the count.
  pub job_count_of-write_seen :
      (f g : WorkerRegistry → WorkerRegistry)
      → ((b : WorkerRegistry) → WorkerRegistry.worker_id (f b) ≡ WorkerRegistry.worker_id b)
      → ((b : WorkerRegistry) → WorkerRegistry.worker_id (g b) ≡ WorkerRegistry.worker_id b)
      → ((b : WorkerRegistry)
          → WorkerRegistry.current_job_count (g b) ≡ WorkerRegistry.current_job_count b)
      → job_count_of w (update_where (Workers.has_id k) g (update_where (Workers.has_id k) f ws))
        ≡ (if k == w then WorkerRegistry.current_job_count (f row) else job_count_of w ws)
  job_count_of-write_seen f g kf kg cg =
      let found = find-update_same (Workers.has_id k) f ws row (λ b. rw (kf b)) e in
      ground (
        arith,
        job_count_of-write k w g (update_where (Workers.has_id k) f ws) (f row) kg found,
        job_count_of-write k w f ws row kf e,
        cg (f row),
      )

  -- A worker that loses one lease, and one that gains one.
  pub vacated-counted :
      (env : World) (n n' : ℕ)
      → n ≡ job_count_of w ws
      → n' + bit (k == w) ≡ n
      → n' ≡ job_count_of w (CompleteEffects.vacated env k ws)
  vacated-counted env n n' before lost = ground (
    arith,
    job_count_at,
    job_count_of-write_seen (Workers.decremented 1) (Workers.seen (some env.now) env.utcnow)
        (λ b. refl) (λ b. refl) (λ b. refl),
  )

Fits-if : (b : Bool) (o p : Option WorkerRegistry) → Fits o → Fits p → Fits (if b then o else p)
Fits-if true o p ho hp = ho
Fits-if false o p ho hp = hp

-- A write to one row keeps every worker within its capacity if the new row is.
pub Fits-write :
    (k w : String) (f : WorkerRegistry → WorkerRegistry) (ws : List WorkerRegistry)
    (row : WorkerRegistry)
    → ((b : WorkerRegistry) → WorkerRegistry.worker_id (f b) ≡ WorkerRegistry.worker_id b)
    → find (Workers.has_id k) ws ≡ some row
    → Fits (some (f row))
    → Fits (find (Workers.has_id w) ws)
    → Fits (find (Workers.has_id w) (update_where (Workers.has_id k) f ws))
Fits-write k w f ws row keep e new old =
    rw (find-write (λ b. b.worker_id) k w f ws row keep e)
      (Fits-if (k == w) (some (f row)) (find (Workers.has_id w) ws) new old)

pub Fits-at :
    (k : String) (ws : List WorkerRegistry) (row : WorkerRegistry)
    → find (Workers.has_id k) ws ≡ some row
    → Fits (find (Workers.has_id k) ws)
    → Fits (some row)
Fits-at k ws row e h = rw e at h

pub Fits-vacated :
    (env : World) (k w : String) (ws : List WorkerRegistry) (row : WorkerRegistry)
    → find (Workers.has_id k) ws ≡ some row
    → ((v : String) → Fits (find (Workers.has_id v) ws))
    → Fits (find (Workers.has_id w) (CompleteEffects.vacated env k ws))
Fits-vacated env k w ws row e h =
    let less : Fits (some (Workers.decremented 1 row)) = ground (arith, Fits-at k ws row e (h k)) in
    Fits-write k w (Workers.seen (some env.now) env.utcnow)
      (update_where (Workers.has_id k) (Workers.decremented 1) ws) (Workers.decremented 1 row)
      (λ b. refl) (find-update_same (Workers.has_id k) (Workers.decremented 1) ws row (λ b. refl) e)
      less (Fits-write k w (Workers.decremented 1) ws row (λ b. refl) e less (h w))

pub unique-write :
    (k : String) (f : RuntimeJob → RuntimeJob) (jobs : List RuntimeJob)
    → ((b : RuntimeJob) → RuntimeJob.job_id (f b) ≡ RuntimeJob.job_id b)
    → ((j : String) → count (Jobs.has_id j) jobs ≤ 1)
    → (j : String) → count (Jobs.has_id j) (update_where (Jobs.has_id k) f jobs) ≤ 1
unique-write k f jobs keep u j =
    rw (count-update_keep (Jobs.has_id k) (Jobs.has_id j) f jobs (λ b. rw (keep b))) (u j)

pub held_bit :
    (w k : String) (l : WorkerLease)
    → l.worker_id ≡ k
    → Leases.is_active l.lease_status ≡ true
    → bit (held_by w l) ≡ bit (k == w)
held_bit w k l same active = rw (active, same)

pub Holds-active :
    (db : Db) (t : String) (l : WorkerLease)
    → LeaseEffects.Holds db t l
    → Leases.is_active l.lease_status ≡ true
Holds-active db t l h = ground (arith, find-holds (Leases.active_with t) db.leases l h.found)
