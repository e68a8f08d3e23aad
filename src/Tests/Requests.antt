-- ===== src/Tests/Requests.antt =====
-- Requests of the scenario's worker.
use ai_video_replication.Enums.{job_status_value}
use ai_video_replication.Common.{◌≡◌, refl, Bool, false, inr, true, some, arith}
use ai_video_replication.Common.Json.{empty}
use ai_video_replication.Enums.{JobStatus, AttemptStatus, LeaseStatus}
use ai_video_replication.Store.{RuntimeJob, WorkerLease}
use ai_video_replication.Jobs
use ai_video_replication.Leases
use ai_video_replication.Services.Schemas.{World, ClaimJobResult, HeartbeatResult, EndJobResult}
use ai_video_replication.Services.Claim.{claim_job}
use ai_video_replication.Services.Heartbeat.{heartbeat}
use ai_video_replication.Services.Complete.{complete_job}
use ai_video_replication.Services.Fail.{fail_job}
use ai_video_replication.Runtime.Steps.{run, empty_db}
use ai_video_replication.Store.{ok}
use ai_video_replication.Common.{pos, ◌≤ℤ◌, List, ◌∷◌, [], inl}
use ai_video_replication.Store.{Db, WorkerRegistry}
use ai_video_replication.Runtime.Offers.{CanClaim, claim_job-runs}
use ai_video_replication.Tests.Scenario.{completed, render_job}
use ai_video_replication.Runtime.Columns.{columns_fit}
use ai_video_replication.Runtime.Progress.{completed_db}
use ai_video_replication.Runtime.Completion.{claim_job-completes}
use ai_video_replication.Runtime.Extensions.{run-extensions}
use ai_video_replication.Runtime.Steps.{Call}
use ai_video_replication.Tests.Scenario.{voice_job, held, busy}
use ai_video_replication.Runtime.Tokens.{IsSpent, complete_job-IsSpent, fail_job-IsSpent}
use ai_video_replication.Runtime.Outcomes.{
  HandedOver, Extended, claim_job-HandedOver, heartbeat-Extended,
}
use ai_video_replication.Runtime.Endings.{Succeeded, complete_job-Succeeded}
use ai_video_replication.Runtime.Refusals.{
  is_state_conflict, is_lease_conflict, claim_job-refused, heartbeat-expired,
}
use ai_video_replication.Tests.Scenario.{
  played, world_at, asks, alive, done, gives_up, queued, claimed,
}

abbrev later : World
later = world_at (pos 10) "t1"

abbrev handed : ClaimJobResult
handed = record {
  job_id = "job-2";
  attempt_id = "t1";
  lease_id = "t1";
  claim_token = "t1";
  job_status = JobStatus.claimed;
  attempt_status = AttemptStatus.claimed;
  lease_status = LeaseStatus.active;
  queue_name = "render";
  priority = pos 9;
  attempt_index = 1;
  lease_expires_at = pos 60000010;
}

claim_job-HandedOver_example :
    HandedOver later asks
      (run queued empty_db)
      handed
      (claim_job later asks (run queued empty_db)).1
unfolding played
claim_job-HandedOver_example =
    claim_job-HandedOver queued later asks (claim_job later asks (run queued empty_db)).1 handed
      refl

abbrev extended : HeartbeatResult
extended = record {
  job_id = "job-2";
  lease_id = "t1";
  claim_token = "t1";
  job_status = JobStatus.running;
  lease_status = LeaseStatus.active;
  attempt_status = some AttemptStatus.started;
  heartbeat_count = 1;
  extension_count = 1;
  lease_expires_at = pos 60000010;
}

heartbeat-Extended_example :
    Extended later alive
      (run claimed empty_db)
      extended
      (heartbeat later alive (run claimed empty_db)).1
unfolding played
heartbeat-Extended_example =
    heartbeat-Extended later alive (run claimed empty_db)
      (heartbeat later alive (run claimed empty_db)).1 extended refl

abbrev ended : EndJobResult
ended = record {
  job_id = "job-2";
  attempt_id = "t1";
  lease_id = "t1";
  job_status = JobStatus.succeeded;
  attempt_status = AttemptStatus.completed;
  lease_status = LeaseStatus.released;
  worker_id = "w";
  current_job_count = 0;
  finished_at = pos 10;
  metadata_json = empty;
}

complete_job-Succeeded_example :
    Succeeded later done
      (run claimed empty_db)
      ended
      (complete_job later done (run claimed empty_db)).1
unfolding played
complete_job-Succeeded_example =
    complete_job-Succeeded later done (run claimed empty_db)
      (complete_job later done (run claimed empty_db)).1 ended refl

complete_job-IsSpent_example : IsSpent "t1" (complete_job later done (run claimed empty_db)).1
unfolding played
complete_job-IsSpent_example =
    complete_job-IsSpent later done (run claimed empty_db)
      (complete_job later done (run claimed empty_db)).1 ended refl

abbrev given_up : EndJobResult
given_up = record {
  job_id = "job-2";
  attempt_id = "t1";
  lease_id = "t1";
  job_status = JobStatus.waiting_retry;
  attempt_status = AttemptStatus.timed_out;
  lease_status = LeaseStatus.expired;
  worker_id = "w";
  current_job_count = 0;
  finished_at = pos 10;
  metadata_json = empty;
}

fail_job-IsSpent_example : IsSpent "t1" (fail_job later gives_up (run claimed empty_db)).1
unfolding played job_status_value
fail_job-IsSpent_example =
    fail_job-IsSpent later gives_up (run claimed empty_db)
      (fail_job later gives_up (run claimed empty_db)).1 given_up refl

abbrev unlocked : RuntimeJob → Bool
unlocked j = false

claim_job-refused_example :
    (is_state_conflict (claim_job later asks (run claimed empty_db)).0 ≡ true)
    × ((claim_job later asks (run claimed empty_db)).1 ≡ run claimed empty_db)
unfolding played
claim_job-refused_example =
    claim_job-refused later asks (run claimed empty_db) busy refl refl (omega arith) refl
      (inr (omega arith))

abbrev too_late : World
too_late = world_at (pos 60000003) "t2"

heartbeat-expired_example :
    (is_lease_conflict (heartbeat too_late alive (run claimed empty_db)).0 ≡ true)
    × ((heartbeat too_late alive (run claimed empty_db)).1 ≡ run claimed empty_db)
unfolding played
heartbeat-expired_example =
    heartbeat-expired too_late alive (run claimed empty_db) held refl refl (omega arith)

claim_job-completes_example :
    (end : EndJobResult) × (complete_job too_late done
        (claim_job later asks (run queued empty_db)).1
      ≡ (ok end, completed_db too_late done (claim_job later asks (run queued empty_db)).1))
    × (end.job_status ≡ JobStatus.succeeded)
unfolding played columns_fit
claim_job-completes_example =
    claim_job-completes queued later too_late asks (claim_job later asks (run queued empty_db)).1
      handed done refl refl refl refl refl refl refl

abbrev beaten : List (World × Call)
beaten =
    (world_at (pos 1) "b", Call.creates voice_job)
    ∷ (world_at (pos 3) "t1", Call.claims asks)
    ∷ (world_at (pos 4) "c", Call.beats alive)
    ∷ []

abbrev extended_once : WorkerLease
extended_once = record held {
  lease_expires_at = pos 60000004;
  last_heartbeat_at = some (pos 4);
  heartbeat_count = 1;
  extension_count = 1;
}

run-extensions_example : pos 1 ≤ℤ pos 2
unfolding played
run-extensions_example = run-extensions beaten extended_once (inl refl)

-- The worker has completed the first job, and the other waits.
abbrev idle : WorkerRegistry
idle = record busy { current_job_count = 0; last_seen_at = pos 4 }

abbrev waiting_job : RuntimeJob
waiting_job = record render_job { queued_at = some (pos 1) }

abbrev again : World
again = world_at (pos 10) "t2"

idle-CanClaim : CanClaim again asks (run completed empty_db)
unfolding played
idle-CanClaim = record {
  worker = idle;
  worker_row = record { one = refl; found = refl; id = refl };
  not_blocked = refl;
  size = refl;
  has_room = refl;
  job = waiting_job;
  offer = refl;
  extensions = refl;
  attempt_fresh = refl;
  worker_columns = refl;
  job_columns = refl;
  attempt_columns = refl;
  lease_columns = refl;
  lease_fresh = refl;
}

claim_job-runs_example :
    (answer : ClaimJobResult) × (d : Db) × (claim_job again asks (run completed empty_db)
      ≡ (ok (some answer), d))
claim_job-runs_example = claim_job-runs again asks (run completed empty_db) idle-CanClaim
