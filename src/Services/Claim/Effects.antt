-- ===== src/Services/Claim/Effects.antt =====
-- What a claim has found and changed when it returns.
use ai_video_replication.Common.{
  inl, inr, ◌⊎◌, none, false, leb_ℤ, pos, ◌≡◌, refl, true, false, Option, some, List, [], ◌∷◌, ◌++◌,
  arith, or_int, find, any, count, update_where,
}
use ai_video_replication.Store.{
  Time, RuntimeJob, JobAttempt, WorkerLease, WorkerRegistry, Db, worker_checks, attempt_checks,
  job_fits, attempt_fits, lease_fits, worker_fits, ok, >>=-then, raise_if-ok, raise_if-last,
}
use ai_video_replication.Jobs
use ai_video_replication.Attempts
use ai_video_replication.Leases
use ai_video_replication.Workers
use ai_video_replication.Jobs.Effects as JobEffects
use ai_video_replication.Attempts.Effects as AttemptEffects
use ai_video_replication.Leases.Effects as LeaseEffects
use ai_video_replication.Workers.Effects as WorkerEffects
use ai_video_replication.Jobs.Queue.{get_claimable_job}
use ai_video_replication.Workers.{WorkerRegistrationUpsert}
use ai_video_replication.Services.Schemas.{ClaimJobRequest, ClaimJobResult, World, after_seconds}
use ai_video_replication.Services.Claim.{
  take_job, new_attempt, new_lease, claim_result, registration, is_blocked, assert_worker_claimable,
  after_pick, claim_body,
}

abbrev pub lease_end : World → ClaimJobRequest → RuntimeJob → Time
lease_end env r candidate =
    after_seconds env.now (or_int r.lease_timeout_seconds_override candidate.lease_timeout_seconds)

abbrev pub taken : World → ClaimJobRequest → RuntimeJob → RuntimeJob → RuntimeJob
taken env r candidate = Jobs.claimed r.worker_id env.claim_token env.now (lease_end env r candidate)

abbrev pub attempt_of : World → ClaimJobRequest → RuntimeJob → JobAttempt
attempt_of env r c = new_attempt env r (taken env r c c)

abbrev pub lease_of : World → ClaimJobRequest → RuntimeJob → WorkerLease
lease_of env r c = new_lease env r (taken env r c c) (attempt_of env r c) (lease_end env r c)

abbrev pub occupied : World → ClaimJobRequest → List WorkerRegistry → List WorkerRegistry
occupied env r ws =
    update_where (Workers.has_id r.worker_id) (Workers.seen (some env.now) env.utcnow)
      (update_where (Workers.has_id r.worker_id) (Workers.incremented 1) ws)

-- A job that was taken: every table after the call, in terms of the tables before it.
pub record Took (env : World) (r : ClaimJobRequest) (c : RuntimeJob) (db : Db)
    (o : Option ClaimJobResult) (db' : Db) : Type 0 where
  pub was_claimable : Jobs.is_claimable c.job_status ≡ true
  pub worker : WorkerRegistry
  pub worker_found : find (Workers.has_id r.worker_id) db.workers ≡ some worker
  pub worker_one : count (Workers.has_id r.worker_id) db.workers ≡ 1
  pub worker_size : worker_checks (Workers.incremented 1 worker) ≡ true
  pub worker_columns : worker_fits (Workers.incremented 1 worker) ≡ true
  pub job_columns : job_fits (taken env r c c) ≡ true
  pub attempt_columns : attempt_fits (attempt_of env r c) ≡ true
  pub lease_columns : lease_fits (lease_of env r c) ≡ true
  pub attempt_size : attempt_checks (attempt_of env r c) ≡ true
  pub extensions_size : leb_ℤ (pos 0) r.lease_max_extensions ≡ true
  pub token_free : any (Leases.collides (lease_of env r c)) db.leases ≡ false
  pub answer :
      o
      ≡ some
          (claim_result (taken env r c c) (attempt_of env r c) (lease_of env r c) env.claim_token)
  pub jobs : db'.jobs ≡ update_where (Jobs.has_id c.job_id) (taken env r c) db.jobs
  pub index_free : any (Attempts.collides (attempt_of env r c)) db.attempts ≡ false
  pub attempts : db'.attempts ≡ db.attempts ++ attempt_of env r c ∷ []
  pub leases : db'.leases ≡ db.leases ++ lease_of env r c ∷ []
  pub workers : db'.workers ≡ occupied env r db.workers

pub take_job_lem :
    (env : World) (r : ClaimJobRequest) (c : RuntimeJob) (db db' : Db) (o : Option ClaimJobResult)
    → take_job env r c db ≡ ok (o, db')
    → Took env r c db o db'
unfolding take_job
take_job_lem env r c db db' o eq =
    >>=-then (Jobs.mark_claimed c r.worker_id env.claim_token env.now (lease_end env r c)) _ db _ eq
      λ job db1 e1 k1.
        >>=-then (Attempts.create_attempt (new_attempt env r job)) _ db1 _ k1 λ attempt db2 e2 k2.
          >>=-then (Leases.create_lease (new_lease env r job attempt (lease_end env r c))) _ db2 _
            k2
            λ lease db3 e3 k3.
              >>=-then (Workers.increment_current_job_count r.worker_id 1) _ db3 _ k3
                λ w4 db4 e4 k4.
                  >>=-then (Workers.mark_seen env.utcnow r.worker_id (some env.now)) _ db4 _ k4
                    λ w5 db5 e5 k5.
                      let j =
                        JobEffects.mark_claimed_lem c r.worker_id env.claim_token env.now
                          (lease_end env r c) db db1 job e1 in
                      let a =
                        AttemptEffects.create_attempt_lem (new_attempt env r job) attempt db1 db2
                          e2 in
                      let l =
                        LeaseEffects.create_lease_lem
                          (new_lease env r job attempt (lease_end env r c)) lease db2 db3 e3 in
                      let i = WorkerEffects.increment_lem r.worker_id 1 db3 db4 w4 e4 in
                      let s =
                        WorkerEffects.mark_seen_lem env.utcnow r.worker_id (some env.now) db4 db5 w5
                          e5 in
                      record {
                        was_claimable = j.0;
                        worker = i.row;
                        worker_found = ground (arith, j, a, l, i, s, i.is_row.found);
                        worker_one = ground (arith, j, a, l, i, s, i.is_row.one);
                        worker_size = i.checked;
                        worker_columns = i.fitted;
                        job_columns =
                            JobEffects.mark_claimed-fits c r.worker_id env.claim_token env.now
                              (lease_end env r c) db db1 job e1;
                        attempt_columns = ground (
                          arith,
                          j,
                          AttemptEffects.create_attempt-fits (new_attempt env r job) attempt db1 db2
                              e2,
                        );
                        lease_columns = ground (
                          arith,
                          j,
                          a,
                          LeaseEffects.create_lease-fits
                              (new_lease env r job attempt (lease_end env r c)) lease db2 db3 e3,
                        );
                        attempt_size = ground (
                          arith,
                          j,
                          AttemptEffects.create_attempt-checks (new_attempt env r job) attempt db1
                              db2 e2,
                        );
                        extensions_size = ground (
                          arith,
                          LeaseEffects.create_lease-checks
                              (new_lease env r job attempt (lease_end env r c)) lease db2 db3 e3,
                        );
                        token_free = ground (
                          arith,
                          j,
                          a,
                          LeaseEffects.create_lease-free
                              (new_lease env r job attempt (lease_end env r c)) lease db2 db3 e3,
                        );
                        answer = ground (arith, j, a, l, i, s);
                        jobs = ground (arith, j, a, l, i, s);
                        index_free = ground (arith, j, a, l, i, s);
                        attempts = ground (arith, j, a, l, i, s);
                        leases = ground (arith, j, a, l, i, s);
                        workers = ground (arith, j, a, l, i, s);
                      }

abbrev pub enrolment : World → ClaimJobRequest → Db → WorkerRegistrationUpsert
enrolment env r db = registration env r (find (Workers.has_id r.worker_id) db.workers)

abbrev pub renewed : World → ClaimJobRequest → Db → WorkerRegistry → WorkerRegistry
renewed env r db = Workers.renewed env.utcnow (enrolment env r db)

abbrev pub offered : World → ClaimJobRequest → Db → Option RuntimeJob
offered env r db =
    get_claimable_job env.locked r.queue_name r.routing_key r.worker_capability_tags db.jobs

-- The worker's row after its registration, which lets it claim.
pub record Enrolled (env : World) (r : ClaimJobRequest) (db : Db) (w : WorkerRegistry) (db' : Db)
    : Type 0 where
  pub enrolled :
      WorkerEffects.Wrote r.worker_id (renewed env r db) db w db'
      ⊎ ((find (Workers.has_id r.worker_id) db.workers ≡ none)
          × (w ≡ Workers.registered env.utcnow (enrolment env r db))
          × (worker_checks w ≡ true)
          × (db' ≡ record db {
            workers = db.workers ++ Workers.registered env.utcnow (enrolment env r db) ∷ [];
          }))
  pub not_blocked : is_blocked w.health_status ≡ false
  pub has_room : leb_ℤ w.max_concurrency (pos w.current_job_count) ≡ false

-- A claim that returns has enrolled its worker, and has taken the job that the queue offers, if any.
pub record Claimed (env : World) (r : ClaimJobRequest) (db : Db) (o : Option ClaimJobResult)
    (db' : Db) : Type 0 where
  pub worker : WorkerRegistry
  pub between : Db
  pub enrolled : Enrolled env r db worker between
  pub outcome :
      ((offered env r db ≡ none)
        × (o ≡ none)
        × (x : WorkerRegistry) × WorkerEffects.Wrote r.worker_id
            (Workers.seen (some env.now) env.utcnow)
            between
            x
            db')
      ⊎ ((c : RuntimeJob) × (offered env r db ≡ some c) × Took env r c between o db')

assert_worker_claimable_lem :
    (w : WorkerRegistry) (db db' : Db) (u : Unit {0})
    → assert_worker_claimable w db ≡ ok (u, db')
    → (is_blocked w.health_status ≡ false)
      × (leb_ℤ w.max_concurrency (pos w.current_job_count) ≡ false)
      × (db' ≡ db)
unfolding assert_worker_claimable
assert_worker_claimable_lem w db db' u eq =
    let (free, rest) = raise_if-ok (is_blocked w.health_status) _ _ db _ eq in
    let (room, same) =
      raise_if-last (leb_ℤ w.max_concurrency (pos w.current_job_count)) _ db db' u rest in
    (free, room, same)

finish_claim :
    (env : World) (r : ClaimJobRequest) (db : Db) (w : WorkerRegistry) (db1 db' : Db)
    (o : Option ClaimJobResult) (picked : Option RuntimeJob)
    → Enrolled env r db w db1
    → offered env r db ≡ picked
    → after_pick env r picked db1 ≡ ok (o, db')
    → Claimed env r db o db'
unfolding after_pick
finish_claim env r db w db1 db' o none e p eq =
    >>=-then (Workers.mark_seen env.utcnow r.worker_id (some env.now)) _ db1 _ eq λ x db2 e2 k2.
      let s = WorkerEffects.mark_seen_lem env.utcnow r.worker_id (some env.now) db1 db2 x e2 in
      let same : db' ≡ db2 = ground arith in
      record {
        worker = w;
        between = db1;
        enrolled = e;
        outcome = inl (p, ground arith, x, rw same s);
      }
finish_claim env r db w db1 db' o (some c) e p eq = record {
  worker = w;
  between = db1;
  enrolled = e;
  outcome = inr (c, p, take_job_lem env r c db1 db' o eq);
}

pub claim_body_lem :
    (env : World) (r : ClaimJobRequest) (db db' : Db) (o : Option ClaimJobResult)
    → claim_body env r db ≡ ok (o, db')
    → Claimed env r db o db'
unfolding claim_body
claim_body_lem env r db db' o eq =
    >>=-then (Workers.get_by_worker_id r.worker_id) _ db _ eq λ existing db0 e0 k0.
      >>=-then (Workers.upsert_worker_registration env.utcnow (registration env r existing)) _ db0 _
        k0
        λ w db1 e1 k1. >>=-then (assert_worker_claimable w) _ db1 _ k1 λ u db2 e2 k2.
          let g = WorkerEffects.get_by_id_lem r.worker_id db db0 existing e0 in
          let a = assert_worker_claimable_lem w db1 db2 u e2 in
          let e1' : Workers.upsert_worker_registration env.utcnow (enrolment env r db) db
              ≡ ok (w, db1) =
            cc (e1, g.0, g.1) in
          let p = WorkerEffects.upsert_lem env.utcnow (enrolment env r db) db db1 w e1' in
          let jobs_same : db1.jobs ≡ db.jobs = ground (arith, p) in
          let k2' : after_pick env r (offered env r db) db1 ≡ ok (o, db') =
            cc (k2, a.2, jobs_same) in
          finish_claim env r db w db1 db' o (offered env r db)
            (record { enrolled = p; not_blocked = a.0; has_room = a.1 }) refl k2'
