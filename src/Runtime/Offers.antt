-- ===== src/Runtime/Offers.antt =====
-- What claim_job asks for to hand a job over to a worker that is known.
use ai_video_replication.Common.{
  ◌≡◌, refl, ◌∙◌, pos, leb_ℤ, true, false, some, [], ◌∷◌, ◌++◌, String, arith, any, count, find,
  update_where, find-update_same, count-update_keep,
}
use ai_video_replication.Store.{
  Time, RuntimeJob, WorkerRegistry, Db, ok, attempt_checks, lease_checks, worker_checks, int_fits,
  job_fits, attempt_fits, lease_fits, worker_refs_fit, worker_fits, scalar-of_one,
}
use ai_video_replication.Jobs
use ai_video_replication.Jobs.Queue.{is_candidate}
use ai_video_replication.Jobs.Queue.Members.{get_claimable_job-In}
use ai_video_replication.Attempts
use ai_video_replication.Leases
use ai_video_replication.Workers
use ai_video_replication.Workers.{WorkerRegistrationUpsert}
use ai_video_replication.Workers.Effects as WorkerEffects
use ai_video_replication.Services.Schemas.{World, ClaimJobRequest, ClaimJobResult}
use ai_video_replication.Services.Claim.{
  is_blocked, registration, assert_worker_claimable, after_pick, take_job, claim_body, claim_job,
  claim_result,
}
use ai_video_replication.Services.Claim.Effects.{offered, taken, attempt_of, lease_of, occupied}
use ai_video_replication.Runtime.Runs.{mark_seen-runs}

-- A worker that may claim, a job for it, rows that collide with no other, and values that fit the
-- columns.
pub record CanClaim (env : World) (r : ClaimJobRequest) (db : Db) : Type 0 where
  pub worker : WorkerRegistry
  pub worker_row : WorkerEffects.IsRow db r.worker_id worker
  pub not_blocked : is_blocked worker.health_status ≡ false
  pub size : leb_ℤ (pos 1) r.max_concurrency ≡ true
  pub has_room : leb_ℤ r.max_concurrency (pos worker.current_job_count) ≡ false
  pub job : RuntimeJob
  pub offer : offered env r db ≡ some job
  pub extensions : leb_ℤ (pos 0) r.lease_max_extensions ≡ true
  pub attempt_fresh : any (Attempts.collides (attempt_of env r job)) db.attempts ≡ false
  pub worker_columns :
      worker_fits (
        Workers.incremented 1
          (Workers.renewed env.utcnow (registration env r (some worker)) worker))
      ≡ true
  pub job_columns : job_fits (taken env r job job) ≡ true
  pub attempt_columns : attempt_fits (attempt_of env r job) ≡ true
  pub lease_columns : lease_fits (lease_of env r job) ≡ true
  pub lease_fresh : any (Leases.collides (lease_of env r job)) db.leases ≡ false

upsert-runs :
    (utcnow : Time) (p : WorkerRegistrationUpsert) (db : Db) (w : WorkerRegistry)
    → WorkerEffects.IsRow db p.worker_id w
    → worker_fits (Workers.renewed utcnow p w) ≡ true
    → leb_ℤ (pos 1) p.max_concurrency ≡ true
    → Workers.upsert_worker_registration utcnow p db
      ≡ ok (
        Workers.renewed utcnow p w,
        record db {
          workers = update_where (Workers.has_id p.worker_id) (Workers.renewed utcnow p) db.workers;
        },
      )
unfolding Workers.upsert_worker_registration worker_checks
upsert-runs utcnow p db w row fit h = ground (
  arith,
  fit,
  scalar-of_one (Workers.has_id p.worker_id) db.workers w row.one row.found,
  h,
  row.id,
)

increment-runs :
    (k : String) (db : Db) (w : WorkerRegistry)
    → count (Workers.has_id k) db.workers ≡ 1
    → find (Workers.has_id k) db.workers ≡ some w
    → w.worker_id ≡ k
    → worker_fits (Workers.incremented 1 w) ≡ true
    → worker_checks w ≡ true
    → Workers.increment_current_job_count k 1 db
      ≡ ok (
        Workers.incremented 1 w,
        record db { workers = update_where (Workers.has_id k) (Workers.incremented 1) db.workers },
      )
unfolding Workers.increment_current_job_count worker_checks
increment-runs k db w one found id fit h =
    ground (arith, fit, scalar-of_one (Workers.has_id k) db.workers w one found, h, id)

seen_fits :
    (env : World) (w : WorkerRegistry)
    → worker_fits w ≡ true
    → worker_fits (Workers.seen (some env.now) env.utcnow w) ≡ true
unfolding worker_fits worker_refs_fit
seen_fits env w h = h

-- With one job less the worker's row fits too.
fewer_fits :
    (w : WorkerRegistry) → worker_fits (Workers.incremented 1 w) ≡ true → worker_fits w ≡ true
unfolding worker_fits worker_refs_fit int_fits
fewer_fits w h = ground arith

-- The checks of a new attempt hold by construction.
attempt-passes :
    (env : World) (r : ClaimJobRequest) (c : RuntimeJob)
    → attempt_checks (attempt_of env r c) ≡ true
unfolding attempt_checks
attempt-passes env r c = ground arith

module _ (env : World) (r : ClaimJobRequest) (mid : Db) (w : WorkerRegistry) (c : RuntimeJob)
    (one : count (Workers.has_id r.worker_id) mid.workers ≡ 1)
    (found : find (Workers.has_id r.worker_id) mid.workers ≡ some w)
    (id : w.worker_id ≡ r.worker_id) (more : worker_fits (Workers.incremented 1 w) ≡ true)
    (job_columns : job_fits (taken env r c c) ≡ true)
    (attempt_columns : attempt_fits (attempt_of env r c) ≡ true)
    (lease_columns : lease_fits (lease_of env r c) ≡ true) (size : worker_checks w ≡ true)
    (claimable : Jobs.is_claimable c.job_status ≡ true)
    (extensions : leb_ℤ (pos 0) r.lease_max_extensions ≡ true)
    (attempt_fresh : any (Attempts.collides (attempt_of env r c)) mid.attempts ≡ false)
    (lease_fresh : any (Leases.collides (lease_of env r c)) mid.leases ≡ false) where
  take_job-runs :
      (answer : ClaimJobResult) × (d : Db) × (take_job env r c mid ≡ ok (some answer, d))
  unfolding take_job Jobs.mark_claimed Attempts.create_attempt Leases.create_lease lease_checks
      worker_checks
  take_job-runs =
      let d1 : Db = record mid {
        jobs = update_where (Jobs.has_id c.job_id) (taken env r c) mid.jobs;
      } in
      let d2 : Db = record d1 { attempts = mid.attempts ++ attempt_of env r c ∷ [] } in
      let d3 : Db = record d2 { leases = mid.leases ++ lease_of env r c ∷ [] } in
      let d4 : Db = record d3 {
        workers = update_where (Workers.has_id r.worker_id) (Workers.incremented 1) mid.workers;
      } in
      let d5 : Db = record d4 { workers = occupied env r mid.workers } in
      let p4 = increment-runs r.worker_id d3 w one found id more size in
      let p5 =
        mark_seen-runs env.utcnow r.worker_id (some env.now) d4 (Workers.incremented 1 w)
          (count-update_keep (Workers.has_id r.worker_id) (Workers.has_id r.worker_id)
              (Workers.incremented 1) mid.workers (λ b. refl)
            ∙ one)
          (find-update_same (Workers.has_id r.worker_id) (Workers.incremented 1) mid.workers w
            (λ b. refl) found)
          id (seen_fits env (Workers.incremented 1 w) more) size in
      (
        claim_result (taken env r c c) (attempt_of env r c) (lease_of env r c) env.claim_token,
        d5,
        ground (
          arith,
          claimable,
          attempt-passes env r c,
          attempt_fresh,
          lease_fresh,
          extensions,
          job_columns,
          attempt_columns,
          lease_columns,
          p4,
          p5,
        ),
      )

known-registration :
    (env : World) (r : ClaimJobRequest) (db : Db) (w : WorkerRegistry)
    → find (Workers.has_id r.worker_id) db.workers ≡ some w
    → registration env r (find (Workers.has_id r.worker_id) db.workers)
      ≡ registration env r (some w)
known-registration env r db w e = rw e refl

claim_body-runs :
    (env : World) (r : ClaimJobRequest) (db : Db)
    → CanClaim env r db
    → (answer : ClaimJobResult) × (d : Db) × (claim_body env r db ≡ ok (some answer, d))
unfolding claim_body assert_worker_claimable after_pick Workers.get_by_worker_id worker_checks
    is_candidate
claim_body-runs env r db c =
    let reg = registration env r (some c.worker) in
    let f = Workers.renewed env.utcnow reg in
    let mid : Db = record db { workers = update_where (Workers.has_id r.worker_id) f db.workers } in
    let up =
      upsert-runs env.utcnow reg db c.worker c.worker_row (fewer_fits _ c.worker_columns) c.size in
    let passes =
      (get_claimable_job-In env.locked r.queue_name r.routing_key r.worker_capability_tags db.jobs
        c.job c.offer).1 in
    let free : Jobs.is_claimable c.job.job_status ≡ true = ground (arith, passes) in
    let (answer, d, taken_ok) =
      take_job-runs env r mid (f c.worker) c.job
        (count-update_keep (Workers.has_id r.worker_id) (Workers.has_id r.worker_id) f db.workers
            (λ b. refl)
          ∙ c.worker_row.one)
        (find-update_same (Workers.has_id r.worker_id) f db.workers c.worker (λ b. refl)
          c.worker_row.found)
        c.worker_row.id c.worker_columns c.job_columns c.attempt_columns c.lease_columns c.size free
        c.extensions c.attempt_fresh c.lease_fresh in
    (
      answer,
      d,
      ground (
        arith,
        scalar-of_one (Workers.has_id r.worker_id) db.workers c.worker c.worker_row.one
            c.worker_row.found,
        up,
        c.not_blocked,
        c.has_room,
        c.offer,
        taken_ok,
      ),
    )

-- A known worker that is neither draining nor offline and has room under its request's max_concurrency
-- is handed a job by claim_job whenever the queue offers one, if max_concurrency is 1 at least and
-- lease_max_extensions is not negative, the new attempt and the new lease collide with no row in their
-- ids, their index and their token, and what is written fits the columns: claim_job returns Some.
pub claim_job-runs :
    (env : World) (r : ClaimJobRequest) (db : Db)
    → CanClaim env r db
    → (answer : ClaimJobResult) × (d : Db) × (claim_job env r db ≡ (ok (some answer), d))
unfolding claim_job
claim_job-runs env r db c =
    let (answer, d, runs) = claim_body-runs env r db c in (answer, d, ground (arith, runs))
