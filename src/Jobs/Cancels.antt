-- ===== src/Jobs/Cancels.antt =====
-- What the operations outside the claim cycle have changed when they return: `mark_cancel_requested`,
-- `mark_cancelled` and `mark_superseded`.
use ai_video_replication.Common.{
  ◌≡◌, refl, inl, inr, ◌⊎◌, Bool, true, false, Option, none, some, String, arith, if◌then◌else◌,
}
use ai_video_replication.Enums.{JobStatus}
use ai_video_replication.Store.{Time, RuntimeJob, Db, ok, pure, present, present-ok, >>=-then}
use ai_video_replication.Jobs.{
  is_terminal, finished, cancel_requested, superseded, write, get_by_job_id, assert_claim_owner,
  assert_given_owner, mark_cancel_requested, mark_cancelled, mark_superseded,
}
use ai_video_replication.Jobs.Effects.{IsRow, Wrote, get_by_job_id_lem}

written :
    (k : String) (f : RuntimeJob → RuntimeJob) (job : RuntimeJob) (db db' : Db) (job' : RuntimeJob)
    → IsRow db k job
    → write job f db ≡ ok (job', db')
    → Wrote k f db job' db'
written k f job db db' job' is_row eq = record {
  row = job;
  is_row = is_row;
  result = ground arith;
  after = ground (arith, is_row.id);
}

request-written :
    (k : String) (f : RuntimeJob → RuntimeJob) (job : RuntimeJob) (db db' : Db) (job' : RuntimeJob)
    (b : Bool)
    → IsRow db k job
    → is_terminal job.job_status ≡ b
    → (if b then pure job else write job f) db ≡ ok (job', db')
    → ((db' ≡ db) ⊎ ((x : Wrote k f db job' db') × (is_terminal x.row.job_status ≡ false)))
request-written k f job db db' job' true is_row s eq = inl (ground arith)
request-written k f job db db' job' false is_row s eq = inr (
  record { row = job; is_row = is_row; result = ground arith; after = ground (arith, is_row.id) },
  s,
)

-- A job that has ended is left alone; any other gets the request.
pub mark_cancel_requested_kept :
    (utcnow : Time) (k : String) (reason : Option String) (at : Option Time) (db db' : Db)
    (job' : RuntimeJob)
    → mark_cancel_requested utcnow k reason at db ≡ ok (job', db')
    → ((db' ≡ db)
        ⊎ ((x : Wrote k (cancel_requested reason at utcnow) db job' db') × (is_terminal
                x.row.job_status
              ≡ false)))
unfolding mark_cancel_requested
mark_cancel_requested_kept utcnow k reason at db db' job' eq =
    >>=-then (get_by_job_id k) _ db _ eq λ o1 d1 e1 k1.
      >>=-then (present o1 _) _ d1 _ k1 λ job d2 e2 k2.
        let p2 = present-ok o1 _ d1 d2 job e2 in
        let g2 = get_by_job_id_lem k db d1 job (cc (e1, p2.0)) in
        let back : d2 ≡ db = cc (p2.1, g2.1) in
        request-written k (cancel_requested reason at utcnow) job db db' job'
          (is_terminal job.job_status) g2.0 refl (rw back at k2)

pub mark_cancel_requested_lem :
    (utcnow : Time) (k : String) (reason : Option String) (at : Option Time) (db db' : Db)
    (job' : RuntimeJob)
    → mark_cancel_requested utcnow k reason at db ≡ ok (job', db')
    → ((db' ≡ db) ⊎ Wrote k (cancel_requested reason at utcnow) db job' db')
mark_cancel_requested_lem utcnow k reason at db db' job' eq =
    elim (mark_cancel_requested_kept utcnow k reason at db db' job' eq) [
      | inl same ↦ inl same
      | inr (x, _) ↦ inr x
    ]

owner_checked :
    (job : RuntimeJob) (t w : Option String) (db db' : Db) (u : Unit {0})
    → assert_given_owner job t w db ≡ ok (u, db')
    → db' ≡ db
unfolding assert_claim_owner
owner_checked job none w db db' u eq = ground arith
owner_checked job (some t) none db db' u eq = ground arith
owner_checked job (some t) (some w) db db' u eq = ground arith

pub mark_cancelled_lem :
    (utcnow : Time) (k : String) (t w : Option String) (at : Option Time) (c m : Option String)
    (db db' : Db) (job' : RuntimeJob)
    → mark_cancelled utcnow k t w at c m db ≡ ok (job', db')
    → Wrote k (finished JobStatus.cancelled at utcnow c m) db job' db'
unfolding mark_cancelled
mark_cancelled_lem utcnow k t w at c m db db' job' eq =
    >>=-then (get_by_job_id k) _ db _ eq λ o1 d1 e1 k1.
      >>=-then (present o1 _) _ d1 _ k1 λ job d2 e2 k2.
        >>=-then (assert_given_owner job t w) _ d2 _ k2 λ u d3 e3 k3.
          let p2 = present-ok o1 _ d1 d2 job e2 in
          let g2 = get_by_job_id_lem k db d1 job (cc (e1, p2.0)) in
          let p3 = owner_checked job t w d2 d3 u e3 in
          let back : d3 ≡ db = cc (p3, p2.1, g2.1) in
          written k (finished JobStatus.cancelled at utcnow c m) job db db' job' g2.0
            (rw back at k3)

pub mark_superseded_lem :
    (utcnow : Time) (k by : String) (at : Option Time) (c m : Option String) (db db' : Db)
    (job' : RuntimeJob)
    → mark_superseded utcnow k by at c m db ≡ ok (job', db')
    → Wrote k (superseded by at utcnow c m) db job' db'
unfolding mark_superseded
mark_superseded_lem utcnow k by at c m db db' job' eq =
    >>=-then (get_by_job_id k) _ db _ eq λ o1 d1 e1 k1.
      >>=-then (present o1 _) _ d1 _ k1 λ job d2 e2 k2.
        let p2 = present-ok o1 _ d1 d2 job e2 in
        let g2 = get_by_job_id_lem k db d1 job (cc (e1, p2.0)) in
        let back : d2 ≡ db = cc (p2.1, g2.1) in
        written k (superseded by at utcnow c m) job db db' job' g2.0 (rw back at k2)
