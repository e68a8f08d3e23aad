-- ===== src/Runtime/Invariant/Ends.antt =====
-- The invariant across the end of a lease, by `complete_job` or `fail_job`.
use ai_video_replication.Common.{◌≡◌, refl, Bool, true, false, String, ◌==◌, arith, bit}
use ai_video_replication.Store.{WorkerLease, Db}
use ai_video_replication.Leases
use ai_video_replication.Services.Schemas.{World, CompleteJobRequest, EndJobResult, FailJobRequest}
use ai_video_replication.Services.Complete.Effects as CompleteEffects
use ai_video_replication.Runtime.View.{lease_room-le, held_by, lease_room-write, leases-write}
use ai_video_replication.Services.Fail.Effects as FailEffects
use ai_video_replication.Runtime.Invariant.{
  Inv, Fits-vacated, unique-write, vacated-counted, held_bit, Holds-active,
}

on_bit :
    (j k : String) (l : WorkerLease)
    → l.job_id ≡ k
    → Leases.is_active l.lease_status ≡ true
    → bit (Leases.active_on j l) ≡ bit (k == j)
on_bit j k l same active = rw (active, same)

-- A lease that has ended counts for nothing.
ended_off :
    (env : World) (b : Bool) (q : WorkerLease → Bool) (l : WorkerLease)
    → ((m : WorkerLease) → Leases.is_active m.lease_status ≡ false → q m ≡ false)
    → bit (q (FailEffects.ended_lease env b l)) ≡ 0
ended_off env true q l h = rw (h (FailEffects.ended_lease env true l) refl)
ended_off env false q l h = rw (h (FailEffects.ended_lease env false l) refl)

pub complete-Inv :
    (env : World) (r : CompleteJobRequest) (db db' : Db) (res : EndJobResult)
    → CompleteEffects.Completed env r db res db'
    → Inv db
    → Inv db'
complete-Inv env r db db' res c v =
    let h = c.holder in
    record {
      unique = rw c.jobs (
          unique-write r.job_id (CompleteEffects.succeeded_job env r) db.jobs (λ b. refl) v.unique);
      within = λ w.
          rw c.workers (Fits-vacated env r.worker_id w db.workers c.worker c.worker_found v.within);
      exclusive = λ j.
          rw (c.leases, c.jobs)
            (ground (
              arith,
              leases-write (Leases.active_on j) r.claim_token (CompleteEffects.released_lease env)
                  db h.lease h.lease_held,
              lease_room-write r.job_id j (CompleteEffects.succeeded_job env r) db.jobs h.job
                  (λ b. refl) h.job_row.found,
              lease_room-le j db.jobs,
              v.exclusive j,
            ));
      counted = λ w.
          rw (c.leases, c.workers)
            (vacated-counted r.worker_id w db.workers c.worker c.worker_found env _ _ (v.counted w)
              (omega (
                arith,
                leases-write (held_by w) r.claim_token (CompleteEffects.released_lease env) db
                    h.lease h.lease_held,
                held_bit w r.worker_id h.lease h.lease_worker
                    (Holds-active db r.claim_token h.lease h.lease_held),
              )));
    }

pub fail-Inv :
    (env : World) (r : FailJobRequest) (db db' : Db) (res : EndJobResult)
    → FailEffects.Failed env r db res db'
    → Inv db
    → Inv db'
fail-Inv env r db db' res c v =
    let h = c.holder in
    record {
      unique =
          rw c.jobs
            (unique-write r.job_id (FailEffects.failed_job env r) db.jobs (λ b. refl) v.unique);
      within = λ w.
          rw c.workers (Fits-vacated env r.worker_id w db.workers c.worker c.worker_found v.within);
      exclusive = λ j.
          rw (c.leases, c.jobs)
            (ground (
              arith,
              leases-write (Leases.active_on j) r.claim_token
                  (FailEffects.ended_lease env r.expire_lease) db h.lease h.lease_held,
              lease_room-write r.job_id j (FailEffects.failed_job env r) db.jobs h.job (λ b. refl)
                  h.job_row.found,
              lease_room-le j db.jobs,
              on_bit j r.job_id h.lease h.lease_job
                  (Holds-active db r.claim_token h.lease h.lease_held),
              ended_off env r.expire_lease (Leases.active_on j) h.lease (λ l e. rw e),
              v.exclusive j,
            ));
      counted = λ w.
          rw (c.leases, c.workers)
            (vacated-counted r.worker_id w db.workers c.worker c.worker_found env _ _ (v.counted w)
              (omega (
                arith,
                ended_off env r.expire_lease (held_by w) h.lease (λ l e. rw e),
                leases-write (held_by w) r.claim_token (FailEffects.ended_lease env r.expire_lease)
                    db h.lease h.lease_held,
                held_bit w r.worker_id h.lease h.lease_worker
                    (Holds-active db r.claim_token h.lease h.lease_held),
              )));
    }
