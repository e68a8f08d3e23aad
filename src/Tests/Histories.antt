-- ===== src/Tests/Histories.antt =====
-- Histories of the scenario.
use ai_video_replication.Common.{◌≤◌, ◌≡◌, refl, pos, ◌≤ℤ◌, some, none, List, [], ◌∷◌, count, find}
use ai_video_replication.Enums.{JobStatus}
use ai_video_replication.Store.{RuntimeJob}
use ai_video_replication.Jobs
use ai_video_replication.Leases
use ai_video_replication.Services.Schemas.{World}
use ai_video_replication.Runtime.View.{held_by}
use ai_video_replication.Runtime.Steps.{Call, run, empty_db}
use ai_video_replication.Runtime.Histories.{run-exclusive, run-claimable, run-capacity}
use ai_video_replication.Tests.Scenario.{busy}
use ai_video_replication.Runtime.Terminal.{run-terminal}
use ai_video_replication.Tests.Scenario.{
  played, render_job, voice_job, world_at, asks, done, claimed, completed,
}

one_lease : count (Leases.active_on "job-2") (run claimed empty_db).leases ≡ 1
unfolding played
one_lease = refl

run-exclusive_example : count (Leases.active_on "job-2") (run claimed empty_db).leases ≤ 1
run-exclusive_example = run-exclusive claimed "job-2"

abbrev waiting : RuntimeJob
waiting = record render_job { queued_at = some (pos 1) }

run-claimable_example : count (Leases.active_on "job-1") (run claimed empty_db).leases ≡ 0
unfolding played
run-claimable_example = run-claimable claimed "job-1" waiting refl refl

run-capacity_example : (1 ≡ count (held_by "w") (run claimed empty_db).leases) × (pos 1 ≤ℤ pos 1)
unfolding played
run-capacity_example = run-capacity claimed "w" busy refl

abbrev succeeded : RuntimeJob
succeeded = record voice_job {
  job_status = JobStatus.succeeded;
  queued_at = some (pos 2);
  claimed_at = some (pos 3);
  claimed_by_worker_id = some "w";
  active_claim_token = some "t1";
  attempt_count = 1;
  finished_at = some (pos 4);
  terminal_reason_code = some "SUCCEEDED";
}

abbrev afterwards : List (World × Call)
afterwards =
    (world_at (pos 5) "d", Call.requests_cancel "job-2" none)
    ∷ (world_at (pos 6) "e", Call.claims asks)
    ∷ (world_at (pos 7) "f", Call.completes done)
    ∷ []

run-terminal_example :
    find (Jobs.has_id "job-2") (run afterwards (run completed empty_db)).jobs ≡ some succeeded
unfolding played
run-terminal_example = run-terminal completed afterwards "job-2" succeeded refl refl refl
