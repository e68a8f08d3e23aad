-- ===== src/Services/Heartbeat/Checks.antt =====
-- What the checks of a heartbeat have established when it goes on.
use ai_video_replication.Common.{leb_ℤ, ◌≡◌, false, not, ◌==◌, given, not-false, eq_iff, arith}
use ai_video_replication.Store.{
  RuntimeJob, WorkerLease, Db, ok, present, raise_if, >>=-then, raise_if-last, present-ok,
}
use ai_video_replication.Jobs
use ai_video_replication.Leases
use ai_video_replication.Jobs.Effects as JobEffects
use ai_video_replication.Leases.Effects as LeaseEffects
use ai_video_replication.Services.Schemas.{HeartbeatRequest, World}
use ai_video_replication.Services.Heartbeat.{
  check_request, attempts_differ, assert_lease_matches, assert_active_claim,
}

-- The caller holds the job under a lease that has not run out.
pub record Holds (env : World) (r : HeartbeatRequest) (db : Db) (job : RuntimeJob) : Type 0 where
  pub lease : WorkerLease
  pub lease_held : LeaseEffects.Holds db r.claim_token lease
  pub lease_job : lease.job_id ≡ r.job_id
  pub lease_worker : lease.worker_id ≡ r.worker_id
  pub alive : leb_ℤ lease.lease_expires_at env.now ≡ false
  pub job_row : JobEffects.IsRow db r.job_id job
  pub owned : JobEffects.IsOwned job r.claim_token r.worker_id
  pub not_terminal : Jobs.is_terminal job.job_status ≡ false

assert_lease_matches_lem :
    (env : World) (l : WorkerLease) (r : HeartbeatRequest) (db db' : Db) (u : Unit {0})
    → assert_lease_matches env l r db ≡ ok (u, db')
    → (db' ≡ db)
      × (l.job_id ≡ r.job_id)
      × (l.worker_id ≡ r.worker_id)
      × (leb_ℤ l.lease_expires_at env.now ≡ false)
unfolding assert_lease_matches
assert_lease_matches_lem env l r db db' u eq =
    >>=-then (raise_if (not (l.job_id == r.job_id)) _) _ db _ eq λ u1 d1 e1 k1.
      >>=-then (raise_if (not (l.worker_id == r.worker_id)) _) _ d1 _ k1 λ u2 d2 e2 k2.
        >>=-then (raise_if (attempts_differ (given r.attempt_id) (given l.attempt_id)) _) _ d2 _ k2
          λ u3 d3 e3 k3.
            let p1 = raise_if-last (not (l.job_id == r.job_id)) _ db d1 u1 e1 in
            let p2 = raise_if-last (not (l.worker_id == r.worker_id)) _ d1 d2 u2 e2 in
            let p3 =
              raise_if-last (attempts_differ (given r.attempt_id) (given l.attempt_id)) _ d2 d3 u3
                e3 in
            let p4 = raise_if-last (leb_ℤ l.lease_expires_at env.now) _ d3 db' u k3 in
            (
              cc (p4.1, p3.1, p2.1, p1.1),
              (eq_iff l.job_id r.job_id).0 (not-false (l.job_id == r.job_id) p1.0),
              (eq_iff l.worker_id r.worker_id).0 (not-false (l.worker_id == r.worker_id) p2.0),
              p4.0,
            )

assert_active_claim_lem :
    (job : RuntimeJob) (r : HeartbeatRequest) (db db' : Db) (u : Unit {0})
    → assert_active_claim job r db ≡ ok (u, db')
    → (db' ≡ db) × JobEffects.IsOwned job r.claim_token r.worker_id
unfolding assert_active_claim
assert_active_claim_lem job r db db' u eq = (
  ground arith,
  record {
    by_token = JobEffects.option_is→eq job.active_claim_token r.claim_token (ground arith);
    by_worker = JobEffects.option_is→eq job.claimed_by_worker_id r.worker_id (ground arith);
  },
)

pub check_request_lem :
    (env : World) (r : HeartbeatRequest) (db db' : Db) (job : RuntimeJob)
    → check_request env r db ≡ ok (job, db')
    → Holds env r db job × (db' ≡ db)
unfolding check_request
check_request_lem env r db db' job eq =
    >>=-then (Leases.get_active_lease_by_claim_token r.claim_token) _ db _ eq λ o1 d1 e1 k1.
      >>=-then (present o1 _) _ d1 _ k1 λ lease d2 e2 k2.
        >>=-then (assert_lease_matches env lease r) _ d2 _ k2 λ u3 d3 e3 k3.
          >>=-then (Jobs.get_by_job_id r.job_id) _ d3 _ k3 λ o4 d4 e4 k4.
            >>=-then (present o4 _) _ d4 _ k4 λ job5 d5 e5 k5.
              >>=-then (assert_active_claim job5 r) _ d5 _ k5 λ u6 d6 e6 k6.
                >>=-then (raise_if (Jobs.is_terminal job5.job_status) _) _ d6 _ k6 λ u7 d7 e7 k7.
                  let p2 = present-ok o1 _ d1 d2 lease e2 in
                  let g2 =
                    LeaseEffects.get_by_token_lem r.claim_token db d1 lease (cc (e1, p2.0)) in
                  let p3 = assert_lease_matches_lem env lease r d2 d3 u3 e3 in
                  let p5 = present-ok o4 _ d4 d5 job5 e5 in
                  let g5 =
                    JobEffects.get_by_job_id_lem r.job_id db d4 job5
                      (cc (e4, p5.0, p3.0, p2.1, g2.1)) in
                  let p6 = assert_active_claim_lem job5 r d5 d6 u6 e6 in
                  let p7 = raise_if-last (Jobs.is_terminal job5.job_status) _ d6 d7 u7 e7 in
                  let same : job ≡ job5 = ground arith in
                  let same_db : db' ≡ d7 = ground arith in
                  (
                    rw same (record {
                      lease = lease;
                      lease_held = g2.0;
                      lease_job = p3.1;
                      lease_worker = p3.2;
                      alive = p3.3;
                      job_row = g5.0;
                      owned = p6.1;
                      not_terminal = p7.0;
                    }),
                    cc (same_db, p7.1, p6.0, p5.1, g5.1),
                  )
