-- ===== src/Runtime/Invariant/Claims.antt =====
-- The invariant across a claim.
use ai_video_replication.Common.{
  ◌≤◌, ◌≡◌, refl, inl, inr, false, pos, leb_ℤ, Option, some, String, ◌==◌, eq_iff, arith, count,
  find, find-update_same, Bool-cases, update_where,
}
use ai_video_replication.Store.{RuntimeJob, WorkerRegistry, Db}
use ai_video_replication.Jobs
use ai_video_replication.Leases
use ai_video_replication.Workers
use ai_video_replication.Services.Schemas.{World, ClaimJobRequest, ClaimJobResult}
use ai_video_replication.Runtime.View.{
  held_by, lease_room, job_count_of, lease_room-write, leases-add,
}
use ai_video_replication.Runtime.Invariant.{Inv, unique-write}
use ai_video_replication.Common.{find_unique}
use ai_video_replication.Workers.{WorkerRegistrationUpsert}
use ai_video_replication.Services.Claim.Effects as ClaimEffects
use ai_video_replication.Jobs.Queue.Members.{get_claimable_job-In}
use ai_video_replication.Runtime.Invariant.{Fits, Fits-write, job_count_of-write_seen, job_count_at}
use ai_video_replication.Runtime.Invariant.Beats.{Fits-seen, job_count_of-seen}
use ai_video_replication.Runtime.Invariant.Ready.{Ready, Enrolled-Ready, Fits-incremented}

-- A job that is taken: no active lease was on it, and its worker's count goes up by one.
Took-exclusive :
    (env : World) (r : ClaimJobRequest) (c : RuntimeJob) (db : Db) (o : Option ClaimJobResult)
    (db' : Db) (j : String)
    → ClaimEffects.Took env r c db o db'
    → find (Jobs.has_id c.job_id) db.jobs ≡ some c
    → ((i : String) → count (Leases.active_on i) db.leases ≤ lease_room i db.jobs)
    → count (Leases.active_on j) db'.leases ≤ lease_room j db'.jobs
Took-exclusive env r c db o db' j t row free =
    let added = leases-add (Leases.active_on j) db.leases (ClaimEffects.lease_of env r c) in
    let wrote =
      lease_room-write c.job_id j (ClaimEffects.taken env r c) db.jobs c (λ b. refl) row in
    let none_before : lease_room c.job_id db.jobs ≡ 0 = ground (arith, t.was_claimable) in
    rw (t.leases, t.jobs)
      (elim (Bool-cases (c.job_id == j)) [
        | inl same ↦
            let here = (eq_iff c.job_id j).0 same in
            let before : count (Leases.active_on j) db.leases ≤ 0 = rw (← here) (
              let zero : count (Leases.active_on c.job_id) db.leases ≤ 0 =
                omega (arith, free c.job_id, none_before) in
              zero) in
            ground (arith, added, wrote, before)
        | inr other ↦ ground (arith, added, wrote, free j)
      ])

Took-counted :
    (env : World) (r : ClaimJobRequest) (c : RuntimeJob) (db : Db) (o : Option ClaimJobResult)
    (db' : Db) (v : String)
    → ClaimEffects.Took env r c db o db'
    → count (held_by v) db.leases ≡ job_count_of v db.workers
    → count (held_by v) db'.leases ≡ job_count_of v db'.workers
Took-counted env r c db o db' v t before =
    rw (t.leases, t.workers)
      (ground (
        arith,
        leases-add (held_by v) db.leases (ClaimEffects.lease_of env r c),
        job_count_at r.worker_id v db.workers t.worker t.worker_found,
        job_count_of-write_seen r.worker_id v db.workers t.worker t.worker_found
            (Workers.incremented 1) (Workers.seen (some env.now) env.utcnow) (λ b. refl) (λ b. refl)
            (λ b. refl),
      ))

Took-within :
    (env : World) (r : ClaimJobRequest) (c : RuntimeJob) (db : Db) (o : Option ClaimJobResult)
    (db' : Db) (w : WorkerRegistry) (v : String)
    → ClaimEffects.Took env r c db o db'
    → find (Workers.has_id r.worker_id) db.workers ≡ some w
    → leb_ℤ w.max_concurrency (pos w.current_job_count) ≡ false
    → ((u : String) → Fits (find (Workers.has_id u) db.workers))
    → Fits (find (Workers.has_id v) db'.workers)
Took-within env r c db o db' w v t found room fits =
    let more = Workers.incremented 1 in
    rw t.workers (
      Fits-seen r.worker_id v (some env.now) env.utcnow
        (update_where (Workers.has_id r.worker_id) more db.workers) (more w)
        (find-update_same (Workers.has_id r.worker_id) more db.workers w (λ b. refl) found)
        (λ u.
          Fits-write r.worker_id u more db.workers w (λ b. refl) found (Fits-incremented w room)
            (fits u)))

pub offered-row :
    (env : World) (r : ClaimJobRequest) (db : Db) (c : RuntimeJob)
    → ClaimEffects.offered env r db ≡ some c
    → Inv db
    → find (Jobs.has_id c.job_id) db.jobs ≡ some c
offered-row env r db c e v =
    let (there, _) =
      get_claimable_job-In env.locked r.queue_name r.routing_key r.worker_capability_tags db.jobs c
        e in
    find_unique (Jobs.has_id c.job_id) db.jobs c (v.unique c.job_id) there
      ((eq_iff c.job_id c.job_id).1 refl)

Took-Inv :
    (env : World) (r : ClaimJobRequest) (c : RuntimeJob) (db mid : Db) (o : Option ClaimJobResult)
    (db' : Db) (w : WorkerRegistry)
    → ClaimEffects.offered env r db ≡ some c
    → ClaimEffects.Took env r c mid o db'
    → Ready r.worker_id db w mid
    → leb_ℤ w.max_concurrency (pos w.current_job_count) ≡ false
    → Inv db
    → Inv db'
Took-Inv env r c db mid o db' w e t d room v = record {
  unique = λ j.
      rw (t.jobs, d.jobs)
        (unique-write c.job_id (ClaimEffects.taken env r c) db.jobs (λ b. refl) v.unique j);
  exclusive = λ j.
      Took-exclusive env r c mid o db' j t (rw d.jobs (offered-row env r db c e v))
        (λ i. rw (d.leases, d.jobs) (v.exclusive i));
  counted = λ u. Took-counted env r c mid o db' u t (rw (d.leases, d.counts u) (v.counted u));
  within = λ u. Took-within env r c mid o db' w u t d.found room d.within;
}

pub claim-Inv :
    (env : World) (r : ClaimJobRequest) (db db' : Db) (o : Option ClaimJobResult)
    → ClaimEffects.Claimed env r db o db'
    → Inv db
    → Inv db'
claim-Inv env r db db' o c v =
    let d = Enrolled-Ready env r db c.worker c.between c.enrolled v in
    elim c.outcome [
      | inl (_, _, x, s) ↦ record {
        unique = λ j. rw (s.after, d.jobs) (v.unique j);
        exclusive = λ j. rw (s.after, d.leases, d.jobs) (v.exclusive j);
        counted = λ u.
            rw (s.after, d.leases)
              (omega (
                arith,
                v.counted u,
                d.counts u,
                job_count_of-seen r.worker_id u (some env.now) env.utcnow c.between.workers s.row
                    s.is_row.found,
              ));
        within = λ u. rw s.after (
            Fits-seen r.worker_id u (some env.now) env.utcnow c.between.workers s.row s.is_row.found
              d.within);
      }
      | inr (job, e, t) ↦ Took-Inv env r job db c.between o db' c.worker e t d c.enrolled.has_room v
    ]
