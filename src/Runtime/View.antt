-- ===== src/Runtime/View.antt =====
-- The database seen as numbers: the active leases of a job and of a worker, whether a job's row
-- lets a lease stand, and the count that a worker's row keeps. One lemma for each kind of write.
use ai_video_replication.Common.{
  ℕ, ◌+◌, ◌≤◌, ◌≡◌, refl, ap, ◌∙◌, ◌&&◌, Bool, true, false, not, if◌then◌else◌, Option, none, some,
  List, [], ◌∷◌, ◌++◌, String, ◌==◌, arith, bit, count, find, find-write, find-append, update_where,
  count-update, count-append,
}
use ai_video_replication.Store.{RuntimeJob, WorkerLease, WorkerRegistry, Db}
use ai_video_replication.Jobs
use ai_video_replication.Leases
use ai_video_replication.Workers
use ai_video_replication.Leases.Effects as LeaseEffects

abbrev pub held_by : String → WorkerLease → Bool
held_by worker_id l = Leases.is_active l.lease_status && l.worker_id == worker_id

-- A job that may be claimed, and a job that is not there, admits no lease; any other admits one.
abbrev pub admits : Option RuntimeJob → ℕ
admits none = 0
admits (some job) = bit (not (Jobs.is_claimable job.job_status))

abbrev pub counted : Option WorkerRegistry → ℕ
counted none = 0
counted (some w) = w.current_job_count

abbrev pub lease_room : String → List RuntimeJob → ℕ
lease_room job_id jobs = admits (find (Jobs.has_id job_id) jobs)

abbrev pub job_count_of : String → List WorkerRegistry → ℕ
job_count_of worker_id workers = counted (find (Workers.has_id worker_id) workers)

admits_if :
    (b : Bool) (o p : Option RuntimeJob)
    → admits (if b then o else p) ≡ (if b then admits o else admits p)
admits_if true o p = refl
admits_if false o p = refl

counted_if :
    (b : Bool) (o p : Option WorkerRegistry)
    → counted (if b then o else p) ≡ (if b then counted o else counted p)
counted_if true o p = refl
counted_if false o p = refl

pub lease_room-write :
    (k j : String) (f : RuntimeJob → RuntimeJob) (jobs : List RuntimeJob) (job : RuntimeJob)
    → ((b : RuntimeJob) → RuntimeJob.job_id (f b) ≡ RuntimeJob.job_id b)
    → find (Jobs.has_id k) jobs ≡ some job
    → lease_room j (update_where (Jobs.has_id k) f jobs)
      ≡ (if k == j then admits (some (f job)) else lease_room j jobs)
lease_room-write k j f jobs job keep e =
    ap admits (find-write (λ b. b.job_id) k j f jobs job keep e)
    ∙ admits_if (k == j) (some (f job)) (find (Jobs.has_id j) jobs)

pub job_count_of-write :
    (k w : String) (f : WorkerRegistry → WorkerRegistry) (ws : List WorkerRegistry)
    (row : WorkerRegistry)
    → ((b : WorkerRegistry) → WorkerRegistry.worker_id (f b) ≡ WorkerRegistry.worker_id b)
    → find (Workers.has_id k) ws ≡ some row
    → job_count_of w (update_where (Workers.has_id k) f ws)
      ≡ (if k == w then counted (some (f row)) else job_count_of w ws)
job_count_of-write k w f ws row keep e =
    ap counted (find-write (λ b. b.worker_id) k w f ws row keep e)
    ∙ counted_if (k == w) (some (f row)) (find (Workers.has_id w) ws)

-- A new row with count 0 changes no count, and neither does a new row of a job no lease is on.
pub job_count_of-add :
    (w : String) (ws : List WorkerRegistry) (row : WorkerRegistry)
    → row.current_job_count ≡ 0
    → job_count_of w (ws ++ row ∷ []) ≡ job_count_of w ws
job_count_of-add w ws row zero = ground (arith, find-append (Workers.has_id w) ws row)

pub lease_room-add :
    (j : String) (jobs : List RuntimeJob) (job : RuntimeJob)
    → lease_room j jobs ≤ lease_room j (jobs ++ job ∷ [])
lease_room-add j jobs job = ground (arith, find-append (Jobs.has_id j) jobs job)

-- A write through a token changes a count of leases by what its one row counts for.
pub leases-write :
    (q : WorkerLease → Bool) (t : String) (f : WorkerLease → WorkerLease) (db : Db)
    (l : WorkerLease)
    → LeaseEffects.Holds db t l
    → count q (update_where (Leases.active_with t) f db.leases) + bit (q l)
      ≡ count q db.leases + bit (q (f l))
leases-write q t f db l h = count-update (Leases.active_with t) q f db.leases l h.one h.found

pub leases-add :
    (q : WorkerLease → Bool) (ls : List WorkerLease) (l : WorkerLease)
    → count q (ls ++ l ∷ []) ≡ count q ls + bit (q l)
leases-add q ls l = omega (arith, count-append q ls (l ∷ []))

pub lease_room-le : (j : String) (jobs : List RuntimeJob) → lease_room j jobs ≤ 1
lease_room-le j jobs = go (find (Jobs.has_id j) jobs)
  where
    go : (o : Option RuntimeJob) → admits o ≤ 1
    go none = omega arith
    go (some job) = ground arith
