-- ===== src/Services/Fail/Effects.antt =====
-- What `fail_job` has found and changed when it returns.
use ai_video_replication.Common.{
  ◌≡◌, refl, Bool, true, false, not, Option, some, List, String, not-false, eq_iff, or_str, or_text,
  arith, find, update_where,
}
use ai_video_replication.Enums.{AttemptStatus, job_status_value}
use ai_video_replication.Store.{
  RuntimeJob, JobAttempt, WorkerLease, WorkerRegistry, Db, ok, present, raise_if, >>=-then,
  raise_if-last, present-ok,
}
use ai_video_replication.Jobs
use ai_video_replication.Attempts
use ai_video_replication.Leases
use ai_video_replication.Workers
use ai_video_replication.Jobs.Effects as JobEffects
use ai_video_replication.Attempts.Effects as AttemptEffects
use ai_video_replication.Leases.Effects as LeaseEffects
use ai_video_replication.Workers.Effects as WorkerEffects
use ai_video_replication.Services.Schemas.{FailJobRequest, EndJobResult, World}
use ai_video_replication.Services.Fail.{
  check_request, assert_lease_matches, assert_active_claim, assert_attempt_matches,
  is_active_attempt, fail_result, fail_body, end_attempt, end_lease,
}

-- The caller holds the job: its lease, its row and its attempt all name the token and the worker.
pub record Holds (r : FailJobRequest) (db : Db) : Type 0 where
  pub lease : WorkerLease
  pub lease_held : LeaseEffects.Holds db r.claim_token lease
  pub lease_job : lease.job_id ≡ r.job_id
  pub lease_worker : lease.worker_id ≡ r.worker_id
  pub job : RuntimeJob
  pub job_row : JobEffects.IsRow db r.job_id job
  pub owned : JobEffects.IsOwned job r.claim_token r.worker_id
  pub not_terminal : Jobs.is_terminal job.job_status ≡ false
  pub attempt : JobAttempt
  pub attempt_row : AttemptEffects.IsRow db r.attempt_id attempt
  pub attempt_job : attempt.job_id ≡ r.job_id
  pub attempt_active : is_active_attempt attempt.attempt_status ≡ true

assert_lease_matches_lem :
    (l : WorkerLease) (r : FailJobRequest) (db db' : Db) (u : Unit {0})
    → assert_lease_matches l r db ≡ ok (u, db')
    → (db' ≡ db) × (l.job_id ≡ r.job_id) × (l.worker_id ≡ r.worker_id)
unfolding assert_lease_matches
assert_lease_matches_lem l r db db' u eq = (
  ground arith,
  ground (arith, eq_iff l.job_id r.job_id),
  ground (arith, eq_iff l.worker_id r.worker_id),
)

assert_active_claim_lem :
    (job : RuntimeJob) (r : FailJobRequest) (db db' : Db) (u : Unit {0})
    → assert_active_claim job r db ≡ ok (u, db')
    → (db' ≡ db) × JobEffects.IsOwned job r.claim_token r.worker_id
unfolding assert_active_claim
assert_active_claim_lem job r db db' u eq = (
  ground arith,
  record {
    by_token = JobEffects.option_is→eq job.active_claim_token r.claim_token (ground arith);
    by_worker = JobEffects.option_is→eq job.claimed_by_worker_id r.worker_id (ground arith);
  },
)

assert_attempt_matches_lem :
    (a : JobAttempt) (r : FailJobRequest) (db db' : Db) (u : Unit {0})
    → assert_attempt_matches a r db ≡ ok (u, db')
    → (db' ≡ db) × (a.job_id ≡ r.job_id)
unfolding assert_attempt_matches
assert_attempt_matches_lem a r db db' u eq =
    (ground arith, ground (arith, eq_iff a.job_id r.job_id))

pub check_request_lem :
    (r : FailJobRequest) (db db' : Db) (u : Unit {0})
    → check_request r db ≡ ok (u, db')
    → Holds r db × (db' ≡ db)
unfolding check_request
check_request_lem r db db' u eq =
    >>=-then (Leases.get_active_lease_by_claim_token r.claim_token) _ db _ eq λ o1 d1 e1 k1.
      >>=-then (present o1 _) _ d1 _ k1 λ lease d2 e2 k2.
        >>=-then (assert_lease_matches lease r) _ d2 _ k2 λ u3 d3 e3 k3.
          >>=-then (Jobs.get_by_job_id r.job_id) _ d3 _ k3 λ o4 d4 e4 k4.
            >>=-then (present o4 _) _ d4 _ k4 λ job d5 e5 k5.
              >>=-then (assert_active_claim job r) _ d5 _ k5 λ u6 d6 e6 k6.
                >>=-then (raise_if (Jobs.is_terminal job.job_status) _) _ d6 _ k6 λ u7 d7 e7 k7.
                  >>=-then (Attempts.get_attempt_by_attempt_id r.attempt_id) _ d7 _ k7
                    λ o8 d8 e8 k8. >>=-then (present o8 _) _ d8 _ k8 λ attempt d9 e9 k9.
                      >>=-then (assert_attempt_matches attempt r) _ d9 _ k9 λ u10 d10 e10 k10.
                        let p2 = present-ok o1 _ d1 d2 lease e2 in
                        let g2 =
                          LeaseEffects.get_by_token_lem r.claim_token db d1 lease (cc (e1, p2.0)) in
                        let p3 = assert_lease_matches_lem lease r d2 d3 u3 e3 in
                        let p5 = present-ok o4 _ d4 d5 job e5 in
                        let g5 =
                          JobEffects.get_by_job_id_lem r.job_id db d4 job
                            (cc (e4, p5.0, p3.0, p2.1, g2.1)) in
                        let p6 = assert_active_claim_lem job r d5 d6 u6 e6 in
                        let p7 = raise_if-last (Jobs.is_terminal job.job_status) _ d6 d7 u7 e7 in
                        let p9 = present-ok o8 _ d8 d9 attempt e9 in
                        let g9 =
                          AttemptEffects.get_by_id_lem r.attempt_id db d8 attempt
                            (cc (e8, p9.0, p7.1, p6.0, p5.1, g5.1)) in
                        let p10 = assert_attempt_matches_lem attempt r d9 d10 u10 e10 in
                        let p11 =
                          raise_if-last (not (is_active_attempt attempt.attempt_status)) _ d10 db' u
                            k10 in
                        (
                          record {
                            lease = lease;
                            lease_held = g2.0;
                            lease_job = p3.1;
                            lease_worker = p3.2;
                            job = job;
                            job_row = g5.0;
                            owned = p6.1;
                            not_terminal = p7.0;
                            attempt = attempt;
                            attempt_row = g9.0;
                            attempt_job = p10.1;
                            attempt_active =
                                not-false (is_active_attempt attempt.attempt_status) p11.0;
                          },
                          cc (p11.1, p10.0, p9.1, g9.1),
                        )

abbrev pub vacated : World → String → List WorkerRegistry → List WorkerRegistry
vacated env worker_id ws =
    update_where (Workers.has_id worker_id) (Workers.seen (some env.now) env.utcnow)
      (update_where (Workers.has_id worker_id) (Workers.decremented 1) ws)

-- The attempt, by the end that the request gives it.
abbrev pub ended_attempt : World → FailJobRequest → AttemptStatus → JobAttempt → JobAttempt
ended_attempt env r AttemptStatus.timed_out =
    Attempts.timed_out (or_str r.error_code "ATTEMPT_TIMEOUT") r.error_message (some env.now)
      env.utcnow
ended_attempt env r AttemptStatus.stale =
    Attempts.errored AttemptStatus.stale (some (or_str r.error_code "ATTEMPT_STALE"))
      r.error_message (some r.error_payload_json) (some env.now) env.utcnow
ended_attempt env r _ =
    Attempts.errored AttemptStatus.failed r.error_code r.error_message (some r.error_payload_json)
      (some env.now) env.utcnow

abbrev pub failed_job : World → FailJobRequest → RuntimeJob → RuntimeJob
failed_job env r =
    Jobs.failed r.next_job_status (some env.now)
      (some (or_str r.error_code (job_status_value r.next_job_status)))
      (or_text r.terminal_reason r.error_message)

abbrev pub ended_lease : World → Bool → WorkerLease → WorkerLease
ended_lease env true = Leases.expired (some env.now) env.utcnow
ended_lease env false = Leases.released (some env.now) env.utcnow

end_attempt_lem :
    (env : World) (r : FailJobRequest) (s : AttemptStatus) (db db' : Db) (a : JobAttempt)
    → end_attempt env r s db ≡ ok (a, db')
    → AttemptEffects.Wrote r.attempt_id (ended_attempt env r s) db a db'
unfolding end_attempt
end_attempt_lem env r AttemptStatus.timed_out db db' a eq =
    AttemptEffects.mark_timed_out_lem env.utcnow r.attempt_id
      (or_str r.error_code "ATTEMPT_TIMEOUT") r.error_message (some env.now) db db' a eq
end_attempt_lem env r AttemptStatus.stale db db' a eq =
    AttemptEffects.mark_stale_lem env.utcnow r.attempt_id (or_str r.error_code "ATTEMPT_STALE")
      r.error_message (some r.error_payload_json) (some env.now) db db' a eq
end_attempt_lem env r _ db db' a eq =
    AttemptEffects.mark_failed_lem env.utcnow r.attempt_id r.error_code r.error_message
      (some r.error_payload_json) (some env.now) db db' a eq

end_lease_by :
    (env : World) (r : FailJobRequest) (b : Bool) (db db' : Db) (l : WorkerLease)
    → r.expire_lease ≡ b
    → end_lease env r db ≡ ok (l, db')
    → LeaseEffects.Wrote r.claim_token (ended_lease env b) db l db'
unfolding end_lease
end_lease_by env r true db db' l b eq =
    LeaseEffects.expire_lease_lem env.utcnow r.claim_token (some env.now) db db' l
      (rw (b, end_lease) at eq)
end_lease_by env r false db db' l b eq =
    (LeaseEffects.release_lease_lem env.utcnow r.claim_token r.worker_id (some env.now) db db' l
      (rw (b, end_lease) at eq)).0

-- Every table after the call, in terms of the tables before it.
pub record Failed (env : World) (r : FailJobRequest) (db : Db) (res : EndJobResult) (db' : Db)
    : Type 0 where
  pub holder : Holds r db
  pub worker : WorkerRegistry
  pub worker_found : find (Workers.has_id r.worker_id) db.workers ≡ some worker
  pub attempts :
      db'.attempts
      ≡ update_where
          (Attempts.has_id r.attempt_id)
          (ended_attempt env r r.attempt_terminal_status)
          db.attempts
  pub jobs : db'.jobs ≡ update_where (Jobs.has_id r.job_id) (failed_job env r) db.jobs
  pub leases :
      db'.leases
      ≡ update_where (Leases.active_with r.claim_token) (ended_lease env r.expire_lease) db.leases
  pub workers : db'.workers ≡ vacated env r.worker_id db.workers
  pub allowed : Jobs.is_failure r.next_job_status ≡ true
  pub answer :
      res
      ≡ fail_result env r
          (failed_job env r holder.job)
          (ended_attempt env r r.attempt_terminal_status holder.attempt)
          (ended_lease env r.expire_lease holder.lease)
          (Workers.decremented 1 worker)

pub fail_body_lem :
    (env : World) (r : FailJobRequest) (db db' : Db) (res : EndJobResult)
    → fail_body env r db ≡ ok (res, db')
    → Failed env r db res db'
unfolding fail_body
fail_body_lem env r db db' res eq =
    let code : Option String = some (or_str r.error_code (job_status_value r.next_job_status)) in
    let message : Option String = or_text r.terminal_reason r.error_message in
    >>=-then (check_request r) _ db _ eq λ u d0 e0 k0.
      >>=-then (end_attempt env r r.attempt_terminal_status) _ d0 _ k0 λ a d1 e1 k1.
        >>=-then
          (Jobs.mark_failed r.job_id r.claim_token r.worker_id r.next_job_status (some env.now) code
            message)
          _ d1 _ k1
          λ j d2 e2 k2. >>=-then (end_lease env r) _ d2 _ k2 λ l d3 e3 k3.
            >>=-then (Workers.decrement_current_job_count r.worker_id 1) _ d3 _ k3 λ w d4 e4 k4.
              >>=-then (Workers.mark_seen env.utcnow r.worker_id (some env.now)) _ d4 _ k4
                λ x d5 e5 k5.
                  let p0 = check_request_lem r db d0 u e0 in
                  let p1 = end_attempt_lem env r r.attempt_terminal_status d0 d1 a e1 in
                  let p2 =
                    JobEffects.mark_failed_lem r.job_id r.claim_token r.worker_id r.next_job_status
                      (some env.now) code message d1 d2 j e2 in
                  let p3 = end_lease_by env r r.expire_lease d2 d3 l refl e3 in
                  let p4 = WorkerEffects.decrement_lem r.worker_id 1 d3 d4 w e4 in
                  let p5 =
                    WorkerEffects.mark_seen_lem env.utcnow r.worker_id (some env.now) d4 d5 x e5 in
                  let end : db' ≡ d5 = ground arith in
                  let row : p2.0.row ≡ p0.0.job =
                    cc (p2.0.is_row.found, p0.0.job_row.found, p1.after, p0.1) in
                  let tried : p1.row ≡ p0.0.attempt =
                    cc (p1.is_row.found, p0.0.attempt_row.found, p0.1) in
                  let leased : p3.row ≡ p0.0.lease =
                    cc (p3.held.found, p0.0.lease_held.found, p2.0.after, p1.after, p0.1) in
                  let said : res ≡ fail_result env r j a l w = ground arith in
                  record {
                    holder = p0.0;
                    worker = p4.row;
                    worker_found = cc (p4.is_row.found, p3.after, p2.0.after, p1.after, p0.1);
                    attempts = cc (end, p5.after, p4.after, p3.after, p2.0.after, p1.after, p0.1);
                    jobs = cc (end, p5.after, p4.after, p3.after, p2.0.after, p1.after, p0.1);
                    leases = cc (end, p5.after, p4.after, p3.after, p2.0.after, p1.after, p0.1);
                    workers = cc (end, p5.after, p4.after, p3.after, p2.0.after, p1.after, p0.1);
                    allowed = p2.2;
                    answer =
                        cc (said, p1.result, p2.0.result, p3.result, p4.result, row, tried, leased);
                  }
