-- ===== src/Runtime/Columns.antt =====
-- What a completion writes fits the columns: the values that it keeps do, and the request's.
use ai_video_replication.Common.{◌≡◌, refl, arith, ◌&&◌, Bool, true, some, String, or_str}
use ai_video_replication.Store.{
  RuntimeJob, JobAttempt, WorkerLease, WorkerRegistry, int_fits, opt_int_fits, text_fits,
  opt_text_fits, job_refs_fit, job_numbers_fit, job_fits, attempt_refs_fit, attempt_fits,
  lease_fits, worker_refs_fit, worker_fits, opt_int_fits-or, opt_text_fits-or,
}
use ai_video_replication.Workers
use ai_video_replication.Services.Schemas.{World, CompleteJobRequest}
use ai_video_replication.Services.Complete.Effects.{
  completed_attempt, succeeded_job, released_lease,
}

-- The texts and figures of a request are not longer and not larger than the attempt's columns.
unfoldable pub columns_fit : CompleteJobRequest → Bool
columns_fit p =
    text_fits 50 (or_str p.completion_status "SUCCEEDED")
    && (opt_text_fits 255 p.result_ref
        && (opt_text_fits 64 p.manifest_artifact_id
            && (opt_int_fits p.runtime_ms
                && (opt_int_fits p.provider_runtime_ms && opt_int_fits p.upload_ms))))

attempt_refs_same :
    (env : World) (p : CompleteJobRequest) (a : JobAttempt)
    → attempt_refs_fit (completed_attempt env p a) ≡ attempt_refs_fit a
unfolding attempt_refs_fit
attempt_refs_same env p a = refl

pub attempt_columns_fit :
    (env : World) (p : CompleteJobRequest) (a : JobAttempt)
    → attempt_fits a ≡ true
    → columns_fit p ≡ true
    → attempt_fits (completed_attempt env p a) ≡ true
unfolding attempt_fits columns_fit opt_text_fits
attempt_columns_fit env p a h f = ground (
  arith,
  attempt_refs_same env p a,
  opt_text_fits-or 255 p.result_ref a.result_ref,
  opt_text_fits-or 64 p.manifest_artifact_id a.manifest_artifact_id,
  opt_int_fits-or p.runtime_ms a.runtime_ms,
  opt_int_fits-or p.provider_runtime_ms a.provider_runtime_ms,
  opt_int_fits-or p.upload_ms a.upload_ms,
)

job_refs_same :
    (env : World) (p : CompleteJobRequest) (j : RuntimeJob)
    → job_refs_fit (succeeded_job env p j) ≡ job_refs_fit j
unfolding job_refs_fit
job_refs_same env p j = refl

job_numbers_same :
    (env : World) (p : CompleteJobRequest) (j : RuntimeJob)
    → job_numbers_fit (succeeded_job env p j) ≡ job_numbers_fit j
unfolding job_numbers_fit
job_numbers_same env p j = refl

longer : (s : String) → text_fits 50 s ≡ true → text_fits 100 s ≡ true
unfolding text_fits
longer s h = ground arith

pub job_columns_fit :
    (env : World) (p : CompleteJobRequest) (j : RuntimeJob)
    → job_fits j ≡ true
    → columns_fit p ≡ true
    → job_fits (succeeded_job env p j) ≡ true
unfolding job_fits columns_fit
job_columns_fit env p j h f =
    let code = or_str p.completion_status "SUCCEEDED" in
    let l : text_fits 50 code ≡ true → opt_text_fits 100 (some code) ≡ true =
      λ e. unfold opt_text_fits in longer code e in
    ground (arith, job_refs_same env p j, job_numbers_same env p j, l)

pub lease_columns_fit :
    (env : World) (l : WorkerLease) → lease_fits l ≡ true → lease_fits (released_lease env l) ≡ true
unfolding lease_fits
lease_columns_fit env l h = h

worker_refs_same :
    (env : World) (w : WorkerRegistry)
    → worker_refs_fit
        (Workers.decremented 1 (Workers.seen (some env.now) env.utcnow (Workers.incremented 1 w)))
      ≡ worker_refs_fit (Workers.incremented 1 w)
unfolding worker_refs_fit
worker_refs_same env w = refl

-- The worker that has taken a job and gives it back.
pub worker_columns_fit :
    (env : World) (w : WorkerRegistry)
    → worker_fits (Workers.incremented 1 w) ≡ true
    → worker_fits
        (Workers.decremented 1 (Workers.seen (some env.now) env.utcnow (Workers.incremented 1 w)))
      ≡ true
unfolding worker_fits int_fits
worker_columns_fit env w h = ground (arith, worker_refs_same env w)
