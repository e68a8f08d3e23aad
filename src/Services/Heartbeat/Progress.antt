-- ===== src/Services/Heartbeat/Progress.antt =====
-- What `mark_job_running` has changed when a heartbeat returns.
use ai_video_replication.Common.{
  ◌≡◌, inl, inr, ◌⊎◌, Bool, true, false, not, Option, none, some, List, String, given, arith, find,
  update_where,
}
use ai_video_replication.Enums.{AttemptStatus}
use ai_video_replication.Store.{
  RuntimeJob, JobAttempt, Db, ok, present, raise_if, >>=-then, raise_if-last, present-ok,
}
use ai_video_replication.Jobs
use ai_video_replication.Attempts
use ai_video_replication.Jobs.Effects as JobEffects
use ai_video_replication.Attempts.Effects as AttemptEffects
use ai_video_replication.Services.Schemas.{HeartbeatRequest, World}
use ai_video_replication.Services.Heartbeat.{
  assert_attempt_owner, is_startable, start_attempt, report_attempt, mark_progress,
}

-- Only the table of attempts may have changed.
pub record OnlyAttempts (db db' : Db) : Type 0 where
  pub jobs : db'.jobs ≡ db.jobs
  pub leases : db'.leases ≡ db.leases
  pub workers : db'.workers ≡ db.workers

OnlyAttempts-make :
    (db db' : Db) (rows : List JobAttempt)
    → db' ≡ record db { attempts = rows }
    → OnlyAttempts db db'
OnlyAttempts-make db db' rows e = record { jobs = cc e; leases = cc e; workers = cc e }

assert_attempt_owner_lem :
    (a : JobAttempt) (r : HeartbeatRequest) (db db' : Db) (u : Unit {0})
    → assert_attempt_owner a r db ≡ ok (u, db')
    → db' ≡ db
unfolding assert_attempt_owner
assert_attempt_owner_lem a r db db' u eq = ground arith

start_attempt_lem :
    (env : World) (r : HeartbeatRequest) (o : Option String) (db db' : Db)
    (s : Option AttemptStatus)
    → start_attempt env r o db ≡ ok (s, db')
    → OnlyAttempts db db'
unfolding start_attempt
start_attempt_lem env r none db db' s eq = OnlyAttempts-make db db' db.attempts (ground arith)
start_attempt_lem env r (some k) db db' s eq =
    >>=-then (Attempts.get_attempt_by_attempt_id k) _ db _ eq λ o1 d1 e1 k1.
      >>=-then (present o1 _) _ d1 _ k1 λ a d2 e2 k2.
        >>=-then (assert_attempt_owner a r) _ d2 _ k2 λ u3 d3 e3 k3.
          >>=-then (raise_if (not (is_startable a.attempt_status)) _) _ d3 _ k3 λ u4 d4 e4 k4.
            >>=-then
              (Attempts.mark_started env.utcnow k (some r.claim_token) (some r.worker_id)
                (some env.now))
              _ d4 _ k4
              λ b d5 e5 k5.
                let p2 = present-ok o1 _ d1 d2 a e2 in
                let g2 = AttemptEffects.get_by_id_lem k db d1 a (cc (e1, p2.0)) in
                let p3 = assert_attempt_owner_lem a r d2 d3 u3 e3 in
                let p4 = raise_if-last (not (is_startable a.attempt_status)) _ d3 d4 u4 e4 in
                let w =
                  AttemptEffects.mark_started_lem env.utcnow k (some r.claim_token)
                    (some r.worker_id) (some env.now) d4 d5 b e5 in
                let same : db' ≡ d5 = ground arith in
                OnlyAttempts-make db db'
                  (update_where (Attempts.has_id k) (Attempts.started (some env.now) env.utcnow)
                    db.attempts)
                  (cc (same, w.after, p4.1, p3, p2.1, g2.1))

report_attempt_lem :
    (r : HeartbeatRequest) (o : Option String) (db db' : Db) (s : Option AttemptStatus)
    → report_attempt r o db ≡ ok (s, db')
    → db' ≡ db
unfolding report_attempt
report_attempt_lem r none db db' s eq = ground arith
report_attempt_lem r (some k) db db' s eq =
    >>=-then (Attempts.get_attempt_by_attempt_id k) _ db _ eq λ o1 d1 e1 k1.
      >>=-then (present o1 _) _ d1 _ k1 λ a d2 e2 k2.
        >>=-then (assert_attempt_owner a r) _ d2 _ k2 λ u3 d3 e3 k3.
          let p2 = present-ok o1 _ d1 d2 a e2 in
          let g2 = AttemptEffects.get_by_id_lem k db d1 a (cc (e1, p2.0)) in
          let p3 = assert_attempt_owner_lem a r d2 d3 u3 e3 in
          let same : db' ≡ d3 = ground arith in cc (same, p3, p2.1, g2.1)

abbrev pub run_job : World → RuntimeJob → RuntimeJob
run_job env = Jobs.running (some env.now) env.utcnow

-- What `mark_job_running` does to the job, and to its table.
pub record Progressed (env : World) (r : HeartbeatRequest) (db : Db) (job job' : RuntimeJob)
    (db' : Db) : Type 0 where
  pub leases : db'.leases ≡ db.leases
  pub workers : db'.workers ≡ db.workers
  pub outcome :
      ((r.mark_job_running ≡ false) × (job' ≡ job) × (db'.jobs ≡ db.jobs))
      ⊎ ((r.mark_job_running ≡ true)
          × (Jobs.can_run job.job_status ≡ true)
          × (job' ≡ run_job env job)
          × (db'.jobs ≡ update_where (Jobs.has_id r.job_id) (run_job env) db.jobs))

pub progress_by :
    (env : World) (r : HeartbeatRequest) (mark : Bool) (db db' : Db) (job job' : RuntimeJob)
    (s : Option AttemptStatus)
    → r.mark_job_running ≡ mark
    → find (Jobs.has_id r.job_id) db.jobs ≡ some job
    → mark_progress env r job db ≡ ok ((job', s), db')
    → Progressed env r db job job' db'
unfolding mark_progress
progress_by env r true db db' job job' s m found eq =
    >>=-then (Jobs.mark_running env.utcnow r.job_id r.claim_token r.worker_id (some env.now)) _ db _
      (rw (m, mark_progress) at eq)
      λ j1 d1 e1 k1. >>=-then (start_attempt env r (given r.attempt_id)) _ d1 _ k1 λ s2 d2 e2 k2.
        let w =
          JobEffects.mark_running_lem env.utcnow r.job_id r.claim_token r.worker_id (some env.now)
            db d1 j1 e1 in
        let o = start_attempt_lem env r (given r.attempt_id) d1 d2 s2 e2 in
        let row : w.0.row ≡ job = cc (w.0.is_row.found, found) in
        let same : (job' ≡ j1) × (db' ≡ d2) = (ground arith, ground arith) in
        record {
          leases = cc (same.1, o.leases, w.0.after);
          workers = cc (same.1, o.workers, w.0.after);
          outcome =
              inr (m, cc (w.2, row), cc (same.0, w.0.result, row), cc (same.1, o.jobs, w.0.after));
        }
progress_by env r false db db' job job' s m found eq =
    >>=-then (report_attempt r (given r.attempt_id)) _ db _ (rw (m, mark_progress) at eq)
      λ s1 d1 e1 k1.
        let o = report_attempt_lem r (given r.attempt_id) db d1 s1 e1 in
        let same : (job' ≡ job) × (db' ≡ d1) = (ground arith, ground arith) in
        record {
          leases = cc (same.1, o);
          workers = cc (same.1, o);
          outcome = inl (m, same.0, cc (same.1, o));
        }
