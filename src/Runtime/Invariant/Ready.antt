-- ===== src/Runtime/Invariant/Ready.antt =====
-- The invariant across the registration of a worker that may claim.
use ai_video_replication.Common.{
  ◌≡◌, refl, inl, inr, Bool, true, false, if◌then◌else◌, pos, leb_ℤ, Option, none, some, List, [],
  ◌∷◌, ◌++◌, String, eq_iff, arith, find, find-update_same, update_where,
}
use ai_video_replication.Store.{WorkerRegistry, Db}
use ai_video_replication.Workers
use ai_video_replication.Services.Schemas.{World, ClaimJobRequest}
use ai_video_replication.Runtime.View.{job_count_of, job_count_of-write, job_count_of-add}
use ai_video_replication.Runtime.Invariant.{Inv}
use ai_video_replication.Common.{find-append}
use ai_video_replication.Store.{Time}
use ai_video_replication.Workers.{WorkerRegistrationUpsert}
use ai_video_replication.Workers.Effects as WorkerEffects
use ai_video_replication.Services.Claim.Effects as ClaimEffects
use ai_video_replication.Runtime.Invariant.{Fits, Fits-write, job_count_at}

-- The database between the registration and the choice of a job.
pub record Ready (k : String) (db : Db) (w : WorkerRegistry) (db' : Db) : Type 0 where
  pub jobs : db'.jobs ≡ db.jobs
  pub attempts : db'.attempts ≡ db.attempts
  pub leases : db'.leases ≡ db.leases
  pub found : find (Workers.has_id k) db'.workers ≡ some w
  pub counts : (v : String) → job_count_of v db'.workers ≡ job_count_of v db.workers
  pub within : (v : String) → Fits (find (Workers.has_id v) db'.workers)

pub room-Fits :
    (w : WorkerRegistry) → leb_ℤ w.max_concurrency (pos w.current_job_count) ≡ false → Fits (some w)
room-Fits w h = ground arith

pub Fits-incremented :
    (w : WorkerRegistry)
    → leb_ℤ w.max_concurrency (pos w.current_job_count) ≡ false
    → Fits (some (Workers.incremented 1 w))
Fits-incremented w h = ground arith

renewed-count :
    (utcnow : Time) (p : WorkerRegistrationUpsert) (v : String) (ws : List WorkerRegistry)
    (row : WorkerRegistry)
    → find (Workers.has_id p.worker_id) ws ≡ some row
    → job_count_of v (update_where (Workers.has_id p.worker_id) (Workers.renewed utcnow p) ws)
      ≡ job_count_of v ws
renewed-count utcnow p v ws row e = ground (
  arith,
  job_count_of-write p.worker_id v (Workers.renewed utcnow p) ws row (λ b. refl) e,
  job_count_at p.worker_id v ws row e,
)

renewed-Ready :
    (utcnow : Time) (p : WorkerRegistrationUpsert) (db : Db) (w : WorkerRegistry) (db' : Db)
    → WorkerEffects.Wrote p.worker_id (Workers.renewed utcnow p) db w db'
    → Fits (some w)
    → Inv db
    → Ready p.worker_id db w db'
renewed-Ready utcnow p db w db' x fits v =
    let there : db'.workers
        ≡ update_where (Workers.has_id p.worker_id) (Workers.renewed utcnow p) db.workers =
      cc x.after in
    let fits' : Fits (some (Workers.renewed utcnow p x.row)) = rw x.result at fits in
    record {
      jobs = cc x.after;
      attempts = cc x.after;
      leases = cc x.after;
      found =
          rw (there, x.result)
            (find-update_same (Workers.has_id p.worker_id) (Workers.renewed utcnow p) db.workers
              x.row (λ b. refl) x.is_row.found);
      counts = λ k. rw there (renewed-count utcnow p k db.workers x.row x.is_row.found);
      within = λ k. rw there (
          Fits-write p.worker_id k (Workers.renewed utcnow p) db.workers x.row (λ b. refl)
            x.is_row.found fits' (v.within k));
    }

append-Fits :
    (o : Option WorkerRegistry) (b : Bool) (y : WorkerRegistry)
    → Fits o
    → Fits (some y)
    → Fits (elim o [ none ↦ if b then some y else none | some a ↦ some a ])
append-Fits none true y ho hy = hy
append-Fits none false y ho hy = tt
append-Fits (some a) b y ho hy = ho

registered-Ready :
    (k : String) (db : Db) (w : WorkerRegistry) (db' : Db)
    → w.worker_id ≡ k
    → w.current_job_count ≡ 0
    → find (Workers.has_id k) db.workers ≡ none
    → db' ≡ record db { workers = db.workers ++ w ∷ [] }
    → Fits (some w)
    → Inv db
    → Ready k db w db'
registered-Ready k db w db' same zero missing after fits v =
    let there : db'.workers ≡ db.workers ++ w ∷ [] = cc after in
    record {
      jobs = cc after;
      attempts = cc after;
      leases = cc after;
      found =
          rw there
            (ground (arith, find-append (Workers.has_id k) db.workers w, eq_iff w.worker_id k));
      counts = λ j. rw there (job_count_of-add j db.workers w zero);
      within = λ j.
          rw (there, find-append (Workers.has_id j) db.workers w)
            (append-Fits (find (Workers.has_id j) db.workers) (Workers.has_id j w) w (v.within j)
              fits);
    }

pub Enrolled-Ready :
    (env : World) (r : ClaimJobRequest) (db : Db) (w : WorkerRegistry) (db' : Db)
    → ClaimEffects.Enrolled env r db w db'
    → Inv db
    → Ready r.worker_id db w db'
Enrolled-Ready env r db w db' e v = elim e.enrolled [
  | inl x ↦
      renewed-Ready env.utcnow (ClaimEffects.enrolment env r db) db w db' x (room-Fits w e.has_room)
        v
  | inr (missing, same, _, after) ↦
      registered-Ready r.worker_id db w db' (cc same) (cc same) missing (cc (after, same))
        (room-Fits w e.has_room) v
]
