-- ===== src/Api/Terminal.antt =====
-- What a client of the terminal routes sees.
use ai_video_replication.Common.{
  ◌≡◌, refl, ◌++◌, inl, inr, ◌⊎◌, none, some, List, String, arith, find, ap,
}
use ai_video_replication.Common.Text.{codes}
use ai_video_replication.Store.{
  RuntimeJob, Db, Result, ok, err, lease_conflict, state_conflict, value_error, integrity_error,
  data_error, multiple_results_found,
}
use ai_video_replication.Jobs
use ai_video_replication.Attempts
use ai_video_replication.Leases
use ai_video_replication.Services.Schemas.{World, CompleteJobRequest, FailJobRequest, EndJobResult}
use ai_video_replication.Services.Complete.{complete_job}
use ai_video_replication.Services.Facade.{terminal_view}
use ai_video_replication.Runtime.Steps.{Call, run, empty_db}
use ai_video_replication.Runtime.Tokens.{complete_job-IsSpent}
use ai_video_replication.Runtime.Views.{get_terminal_view-total}
use ai_video_replication.Api.{
  Response, body, json_response, terminal_error, get_terminal_job, post_complete, post_fail,
  conflict_response,
}

-- The refusal of a request whose lease is gone.
abbrev pub lease_gone : {A : Type 0} → String → String → String → String → Response A
lease_gone job_id attempt_id worker_id claim_token = json_response 409 (
    terminal_error (codes "active lease not found for claim_token=" ++ codes claim_token)
      "runtime_lease_conflict" (some job_id) (some attempt_id) (some worker_id) (some claim_token))

returned_body :
    (j a w t : String) (x : Result EndJobResult) (res : EndJobResult)
    → conflict_response j a w t x ≡ body res
    → x ≡ ok res
unfolding conflict_response
returned_body j a w t (ok y) res h = ground arith
returned_body j a w t (err (lease_conflict d)) res h = cc
returned_body j a w t (err (state_conflict d)) res h = cc
returned_body j a w t (err (value_error d)) res h = cc
returned_body j a w t (err integrity_error) res h = cc
returned_body j a w t (err data_error) res h = cc
returned_body j a w t (err multiple_results_found) res h = cc

-- Once POST /complete has answered with a result, a second POST, /complete or /fail, with the same
-- claim token is answered with status 409, the type runtime_lease_conflict and the ids of the request,
-- and leaves the database as it is.
pub post_complete-once :
    (env later : World) (p : CompleteJobRequest) (db : Db) (res : EndJobResult)
    (again : CompleteJobRequest) (fails : FailJobRequest)
    → (post_complete env p db).0 ≡ body res
    → again.claim_token ≡ p.claim_token
    → fails.claim_token ≡ p.claim_token
    → (post_complete later again (post_complete env p db).1 ≡ (
      lease_gone again.job_id again.attempt_id again.worker_id p.claim_token,
      (post_complete env p db).1,
    ))
      × (post_fail later fails (post_complete env p db).1 ≡ (
        lease_gone fails.job_id fails.attempt_id fails.worker_id p.claim_token,
        (post_complete env p db).1,
      ))
unfolding post_complete post_fail
post_complete-once env later p db res again fails said same same' =
    let got : complete_job env p db ≡ (ok res, (complete_job env p db).1) =
      ap (λ x. (x, (complete_job env p db).1))
        (returned_body p.job_id p.attempt_id p.worker_id p.claim_token (complete_job env p db).0 res
          said) in
    let spent = complete_job-IsSpent env p db (complete_job env p db).1 res got in
    (
      rw (spent.completes later again same) (rw same refl),
      rw (spent.fails later fails same') (rw same' refl),
    )

-- After any history from the empty database, GET /jobs/{job_id} changes nothing and answers 404 with the
-- type runtime_job_not_found where the job has no row, and else with its terminal view: no exception
-- gets past the route.
pub get_terminal_job-answers :
    (h : List (World × Call)) (job_id : String)
    → (get_terminal_job job_id (run h empty_db) ≡ (
      json_response 404 (
          terminal_error
            (codes "job not found: " ++ codes job_id)
            "runtime_job_not_found"
            (some job_id)
            none
            none
            none),
      run h empty_db,
    ))
      ⊎ ((job : RuntimeJob) × (find (Jobs.has_id job_id) (run h empty_db).jobs ≡ some job)
          × (get_terminal_job job_id (run h empty_db) ≡ (
            body (
                terminal_view job
                  (Attempts.latest job_id (run h empty_db).attempts)
                  (find (Leases.active_on job_id) (run h empty_db).leases)),
            run h empty_db,
          )))
unfolding get_terminal_job
get_terminal_job-answers h k = elim (get_terminal_view-total h k) [
  | inl (_, got) ↦ inl (rw (get_terminal_job, got) refl)
  | inr (job, found, got) ↦ inr (job, found, rw (get_terminal_job, got) refl)
]
