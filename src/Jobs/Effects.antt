-- ===== src/Jobs/Effects.antt =====
-- What each operation of RuntimeJobRepository has found and changed when it returns.
use ai_video_replication.Common.{
  ◌≡◌, inl, inr, true, false, not, Option, none, some, String, option_is, eq_iff, arith, count,
  find, find-holds, update_where, ◌++◌, ◌∷◌, [], any,
}
use ai_video_replication.Enums.{JobStatus}
use ai_video_replication.Store.{job_fits, Time, RuntimeJob, Db, ok, scalar-cases, raise_if-ok}
use ai_video_replication.Jobs.{
  has_id, is_claimable, can_run, is_failure, claimed, running, finished, failed, with_queued_at,
  create_job, get_by_job_id, mark_claimed, mark_running, mark_succeeded, mark_failed,
}

-- The one row of a job.
pub record IsRow (db : Db) (job_id : String) (job : RuntimeJob) : Type 0 where
  pub one : count (has_id job_id) db.jobs ≡ 1
  pub found : find (has_id job_id) db.jobs ≡ some job
  pub id : job.job_id ≡ job_id

-- The row that was found, and its change, which is all that changed.
pub record Wrote (job_id : String) (f : RuntimeJob → RuntimeJob) (db : Db) (job' : RuntimeJob)
    (db' : Db) : Type 0 where
  pub row : RuntimeJob
  pub is_row : IsRow db job_id row
  pub result : job' ≡ f row
  pub after : db' ≡ record db { jobs = update_where (has_id job_id) f db.jobs }

pub record IsOwned (job : RuntimeJob) (claim_token worker_id : String) : Type 0 where
  pub by_token : job.active_claim_token ≡ some claim_token
  pub by_worker : job.claimed_by_worker_id ≡ some worker_id

pub option_is→eq : (o : Option String) (t : String) → option_is o t ≡ true → o ≡ some t
option_is→eq none t h = cc
option_is→eq (some s) t h = ground (arith, eq_iff s t)

IsRow-make :
    (db : Db) (k : String) (job : RuntimeJob)
    → count (has_id k) db.jobs ≡ 1
    → find (has_id k) db.jobs ≡ some job
    → IsRow db k job
IsRow-make db k job one found = record {
  one = one;
  found = found;
  id = ground (arith, find-holds (has_id k) db.jobs job found, eq_iff job.job_id k);
}

pub get_by_job_id_lem :
    (k : String) (db db' : Db) (job : RuntimeJob)
    → get_by_job_id k db ≡ ok (some job, db')
    → IsRow db k job × (db' ≡ db)
unfolding get_by_job_id
get_by_job_id_lem k db db' job eq = elim (scalar-cases (has_id k) db.jobs) [
  | inl (m, got, one, found) ↦ (IsRow-make db k job one (ground arith), ground arith)
  | inr (inl (got, _)) ↦ absurd (ground arith)
  | inr (inr got) ↦ absurd (ground arith)
]

pub mark_claimed_lem :
    (job : RuntimeJob) (w t : String) (at e : Time) (db db' : Db) (job' : RuntimeJob)
    → mark_claimed job w t at e db ≡ ok (job', db')
    → (is_claimable job.job_status ≡ true)
      × (job' ≡ claimed w t at e job)
      × (db' ≡ record db { jobs = update_where (has_id job.job_id) (claimed w t at e) db.jobs })
unfolding mark_claimed
mark_claimed_lem job w t at e db db' job' eq =
    let (claimable, done) = raise_if-ok (not (is_claimable job.job_status)) _ _ db _ eq in
    (ground arith, ground arith, ground arith)

pub mark_claimed-fits :
    (job : RuntimeJob) (w t : String) (at e : Time) (db db' : Db) (job' : RuntimeJob)
    → mark_claimed job w t at e db ≡ ok (job', db')
    → job_fits (claimed w t at e job) ≡ true
unfolding mark_claimed
mark_claimed-fits job w t at e db db' job' eq =
    let (claimable, done) = raise_if-ok (not (is_claimable job.job_status)) _ _ db _ eq in
    ground arith

pub mark_running_lem :
    (utcnow : Time) (k t w : String) (at : Option Time) (db db' : Db) (job' : RuntimeJob)
    → mark_running utcnow k t w at db ≡ ok (job', db')
    → (x : Wrote k (running at utcnow) db job' db') × IsOwned x.row t w
      × (can_run x.row.job_status ≡ true)
unfolding mark_running
mark_running_lem utcnow k t w at db db' job' eq = elim (scalar-cases (has_id k) db.jobs) [
  | inl (job, got, one, found) ↦
      let is_row : IsRow db k job = IsRow-make db k job one found in
      (
        record {
          row = job;
          is_row = is_row;
          result = ground arith;
          after = ground (arith, is_row.id);
        },
        record {
          by_token = option_is→eq job.active_claim_token t (ground arith);
          by_worker = option_is→eq job.claimed_by_worker_id w (ground arith);
        },
        ground arith,
      )
  | inr (inl (got, _)) ↦ absurd (ground arith)
  | inr (inr got) ↦ absurd (ground arith)
]

pub mark_succeeded_lem :
    (utcnow : Time) (k t w : String) (at : Option Time) (c m : Option String) (db db' : Db)
    (job' : RuntimeJob)
    → mark_succeeded utcnow k t w at c m db ≡ ok (job', db')
    → (x : Wrote k (finished JobStatus.succeeded at utcnow c m) db job' db') × IsOwned x.row t w
unfolding mark_succeeded
mark_succeeded_lem utcnow k t w at c m db db' job' eq = elim (scalar-cases (has_id k) db.jobs) [
  | inl (job, got, one, found) ↦
      let is_row : IsRow db k job = IsRow-make db k job one found in
      (
        record {
          row = job;
          is_row = is_row;
          result = ground arith;
          after = ground (arith, is_row.id);
        },
        record {
          by_token = option_is→eq job.active_claim_token t (ground arith);
          by_worker = option_is→eq job.claimed_by_worker_id w (ground arith);
        },
      )
  | inr (inl (got, _)) ↦ absurd (ground arith)
  | inr (inr got) ↦ absurd (ground arith)
]

pub mark_failed_lem :
    (k t w : String) (next : JobStatus) (at : Option Time) (c m : Option String) (db db' : Db)
    (job' : RuntimeJob)
    → mark_failed k t w next at c m db ≡ ok (job', db')
    → (x : Wrote k (failed next at c m) db job' db') × IsOwned x.row t w × (is_failure next ≡ true)
unfolding mark_failed
mark_failed_lem k t w next at c m db db' job' eq0 =
    let (allowed, eq) = raise_if-ok (not (is_failure next)) _ _ db _ eq0 in
    elim (scalar-cases (has_id k) db.jobs) [
      | inl (job, got, one, found) ↦
          let is_row : IsRow db k job = IsRow-make db k job one found in
          (
            record {
              row = job;
              is_row = is_row;
              result = ground arith;
              after = ground (arith, is_row.id);
            },
            record {
              by_token = option_is→eq job.active_claim_token t (ground arith);
              by_worker = option_is→eq job.claimed_by_worker_id w (ground arith);
            },
            ground arith,
          )
      | inr (inl (got, _)) ↦ absurd (ground arith)
      | inr (inr got) ↦ absurd (ground arith)
    ]

pub create_job_lem :
    (utcnow : Time) (p job : RuntimeJob) (db db' : Db)
    → create_job utcnow p db ≡ ok (job, db')
    → (job ≡ with_queued_at utcnow p)
      × (any (has_id job.job_id) db.jobs ≡ false)
      × (db' ≡ record db { jobs = db.jobs ++ job ∷ [] })
unfolding create_job
create_job_lem utcnow p job db db' eq = (ground arith, ground arith, ground arith)
