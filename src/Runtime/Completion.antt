-- ===== src/Runtime/Completion.antt =====
-- From claim_job to complete_job: the rows that a claim leaves, as a completion reads them.
use ai_video_replication.Common.{
  ◌≡◌, refl, ◌∙◌, inl, inr, ◌&&◌, Bool, true, false, Option, some, List, [], ◌∷◌, ◌++◌, eq_iff,
  arith, any, count, find, update_where, find-update_same, find-append, find-holds, count-append,
  count-update_keep, count-pos, find-none,
}
use ai_video_replication.Enums.{JobStatus}
use ai_video_replication.Store.{
  RuntimeJob, JobAttempt, WorkerLease, WorkerRegistry, Db, ok, attempt_checks, worker_checks,
  check_ms, returned,
}
use ai_video_replication.Jobs
use ai_video_replication.Jobs.Queue.Members.{get_claimable_job-In}
use ai_video_replication.Attempts
use ai_video_replication.Leases
use ai_video_replication.Workers
use ai_video_replication.Services.Schemas.{
  World, ClaimJobRequest, ClaimJobResult, CompleteJobRequest, EndJobResult,
}
use ai_video_replication.Services.Claim as Claim
use ai_video_replication.Services.Claim.Effects as ClaimEffects
use ai_video_replication.Services.Complete.{complete_job}
use ai_video_replication.Services.Complete.Effects.{completed_attempt}
use ai_video_replication.Runtime.Invariant.Ready.{Enrolled-Ready}
use ai_video_replication.Runtime.Invariant.Claims.{offered-row}
use ai_video_replication.Runtime.Steps.{Call, run, empty_db}
use ai_video_replication.Runtime.Histories.{run-Inv, empty-Inv}
use ai_video_replication.Runtime.Columns.{
  columns_fit, attempt_columns_fit, job_columns_fit, lease_columns_fit, worker_columns_fit,
}
use ai_video_replication.Runtime.Progress.{CanComplete, completed_db, complete_job-runs}

-- A new row under a key that no row had is the one row of that key.
added-found :
    {A : Type 0} (p : A → Bool) (xs : List A) (a : A)
    → count p xs ≡ 0
    → p a ≡ true
    → (count p (xs ++ a ∷ []) ≡ 1) × (find p (xs ++ a ∷ []) ≡ some a)
added-found p xs a none_before here = (
  ground (arith, count-append p xs (a ∷ []), here),
  ground (arith, find-append p xs a, find-none p xs none_before, here),
)

any-weaken :
    {A : Type 0} (p q : A → Bool) (xs : List A)
    → ((a : A) → q a ≡ true → p a ≡ true)
    → any p xs ≡ false
    → count q xs ≡ 0
any-weaken p q [] h e = refl
any-weaken p q (x ∷ xs) h e = ground (arith, h x, any-weaken p q xs h)

lease-free :
    (l : WorkerLease) (ls : List WorkerLease)
    → any (Leases.collides l) ls ≡ false
    → count (Leases.active_with l.claim_token) ls ≡ 0
lease-free l ls =
    any-weaken (Leases.collides l) (Leases.active_with l.claim_token) ls (λ m h. ground (arith, h))

attempt-free :
    (a : JobAttempt) (xs : List JobAttempt)
    → any (Attempts.collides a) xs ≡ false
    → count (Attempts.has_id a.attempt_id) xs ≡ 0
attempt-free a xs =
    any-weaken (Attempts.collides a) (Attempts.has_id a.attempt_id) xs (λ b h. ground (arith, h))

-- What a request reports that the attempt's table takes.
abbrev pub reports_fit : CompleteJobRequest → Bool
reports_fit p = check_ms p.runtime_ms && (check_ms p.provider_runtime_ms && check_ms p.upload_ms)

figures_fit :
    (env : World) (p : CompleteJobRequest) (a : JobAttempt)
    → attempt_checks a ≡ true
    → reports_fit p ≡ true
    → attempt_checks (completed_attempt env p a) ≡ true
unfolding attempt_checks
figures_fit env p a h f = ground arith

module _ (env later : World) (r : ClaimJobRequest) (job : RuntimeJob) (mid : Db)
    (o : Option ClaimJobResult) (db' : Db) (p : CompleteJobRequest)
    (t : ClaimEffects.Took env r job mid o db')
    (job_one : count (Jobs.has_id job.job_id) mid.jobs ≡ 1)
    (job_found : find (Jobs.has_id job.job_id) mid.jobs ≡ some job) (of_job : p.job_id ≡ job.job_id)
    (of_attempt : p.attempt_id ≡ env.attempt_id) (of_worker : p.worker_id ≡ r.worker_id)
    (of_token : p.claim_token ≡ env.claim_token) (fit : reports_fit p ≡ true)
    (columns : columns_fit p ≡ true) where
  lease_there :
      (count (Leases.active_with p.claim_token) db'.leases ≡ 1)
      × (find (Leases.active_with p.claim_token) db'.leases
          ≡ some (ClaimEffects.lease_of env r job))
  lease_there =
      rw (of_token, t.leases)
        (added-found (Leases.active_with env.claim_token) mid.leases
          (ClaimEffects.lease_of env r job)
          (lease-free (ClaimEffects.lease_of env r job) mid.leases t.token_free)
          ((eq_iff env.claim_token env.claim_token).1 refl))

  attempt_there :
      (count (Attempts.has_id p.attempt_id) db'.attempts ≡ 1)
      × (find (Attempts.has_id p.attempt_id) db'.attempts
          ≡ some (ClaimEffects.attempt_of env r job))
  attempt_there =
      rw (of_attempt, t.attempts)
        (added-found (Attempts.has_id env.attempt_id) mid.attempts
          (ClaimEffects.attempt_of env r job)
          (attempt-free (ClaimEffects.attempt_of env r job) mid.attempts t.index_free)
          ((eq_iff env.attempt_id env.attempt_id).1 refl))

  job_there :
      (count (Jobs.has_id p.job_id) db'.jobs ≡ 1)
      × (find (Jobs.has_id p.job_id) db'.jobs ≡ some (ClaimEffects.taken env r job job))
  job_there =
      rw (of_job, t.jobs)
        (
          count-update_keep (Jobs.has_id job.job_id) (Jobs.has_id job.job_id)
                (ClaimEffects.taken env r job) mid.jobs (λ b. refl)
              ∙ job_one,
          find-update_same (Jobs.has_id job.job_id) (ClaimEffects.taken env r job) mid.jobs job
              (λ b. refl) job_found,
        )

  busy : WorkerRegistry
  busy = Workers.seen (some env.now) env.utcnow (Workers.incremented 1 t.worker)

  worker_there :
      (count (Workers.has_id p.worker_id) db'.workers ≡ 1)
      × (find (Workers.has_id p.worker_id) db'.workers ≡ some busy)
  unfolding busy
  worker_there =
      let has = Workers.has_id r.worker_id in
      let more = Workers.incremented 1 in
      let seen = Workers.seen (some env.now) env.utcnow in
      rw (of_worker, t.workers)
        (
          count-update_keep has has seen (update_where has more mid.workers) (λ b. refl)
              ∙ (count-update_keep has has more mid.workers (λ b. refl) ∙ t.worker_one),
          find-update_same has seen (update_where has more mid.workers) (more t.worker) (λ b. refl)
              (find-update_same has more mid.workers t.worker (λ b. refl) t.worker_found),
        )

  Took-CanComplete : CanComplete later p db'
  unfolding worker_checks busy
  Took-CanComplete = record {
    lease = ClaimEffects.lease_of env r job;
    lease_held = record { one = lease_there.0; found = lease_there.1; token = rw of_token refl };
    lease_job = rw of_job refl;
    lease_worker = rw of_worker refl;
    lease_attempt = rw of_attempt refl;
    job = ClaimEffects.taken env r job job;
    job_row = record { one = job_there.0; found = job_there.1; id = rw of_job refl };
    owned = record { by_token = rw of_token refl; by_worker = rw of_worker refl };
    not_terminal = refl;
    attempt = ClaimEffects.attempt_of env r job;
    attempt_row = record {
      one = attempt_there.0;
      found = attempt_there.1;
      id = rw of_attempt refl;
    };
    attempt_job = rw of_job refl;
    attempt_token = rw of_token refl;
    attempt_worker = rw of_worker refl;
    attempt_active = refl;
    figures = figures_fit later p (ClaimEffects.attempt_of env r job) t.attempt_size fit;
    worker = busy;
    worker_row = record {
      one = worker_there.0;
      found = worker_there.1;
      id = ground (
        arith,
        find-holds (Workers.has_id p.worker_id) db'.workers busy worker_there.1,
        eq_iff busy.worker_id p.worker_id,
      );
    };
    size = t.worker_size;
    attempt_columns =
        attempt_columns_fit later p (ClaimEffects.attempt_of env r job) t.attempt_columns columns;
    job_columns = job_columns_fit later p (ClaimEffects.taken env r job job) t.job_columns columns;
    lease_columns = lease_columns_fit later (ClaimEffects.lease_of env r job) t.lease_columns;
    worker_columns = worker_columns_fit env t.worker t.worker_columns;
  }

-- When claim_job returns a job after a history from the empty database, a request to complete it under
-- the ids of the answer, at any later time, succeeds if its figures are not negative and they and its
-- texts fit the columns of the attempt: complete_job returns, and its answer says SUCCEEDED.
pub claim_job-completes :
    (h : List (World × Call)) (env later : World) (r : ClaimJobRequest) (db' : Db)
    (res : ClaimJobResult) (p : CompleteJobRequest)
    → Claim.claim_job env r (run h empty_db) ≡ (ok (some res), db')
    → p.job_id ≡ res.job_id
    → p.attempt_id ≡ res.attempt_id
    → p.worker_id ≡ r.worker_id
    → p.claim_token ≡ res.claim_token
    → reports_fit p ≡ true
    → columns_fit p ≡ true
    → (end : EndJobResult) × (complete_job later p db' ≡ (ok end, completed_db later p db'))
      × (end.job_status ≡ JobStatus.succeeded)
unfolding Claim.claim_job
claim_job-completes h env later r db' res p eq ej ea ew et fit columns =
    let db = run h empty_db in
    let v = run-Inv h empty_db empty-Inv in
    let c =
      ClaimEffects.claim_body_lem env r db db' (some res)
        (returned Claim.map_repository_value_error (Claim.claim_body env r) db db' (some res) eq) in
    let d = Enrolled-Ready env r db c.worker c.between c.enrolled v in
    elim c.outcome [
      | inl (_, nothing, _, _) ↦ cc
      | inr (job, offer, t) ↦
          let (there, _) =
            get_claimable_job-In env.locked r.queue_name r.routing_key r.worker_capability_tags
              db.jobs job offer in
          let said : res
              ≡ Claim.claim_result (ClaimEffects.taken env r job job)
                  (ClaimEffects.attempt_of env r job) (ClaimEffects.lease_of env r job)
                  env.claim_token =
            let e = t.answer in ground arith in
          let one : count (Jobs.has_id job.job_id) db.jobs ≡ 1 = omega (
            arith,
            v.unique job.job_id,
            count-pos (Jobs.has_id job.job_id) db.jobs job there
                ((eq_iff job.job_id job.job_id).1 refl),
          ) in
          let can =
            Took-CanComplete env later r job c.between (some res) db' p t (rw d.jobs one)
              (rw d.jobs (offered-row env r db job offer v)) (cc (ej, said)) (cc (ea, said)) ew
              (cc (et, said)) fit columns in
          (_, complete_job-runs later p db' can, refl)
    ]
