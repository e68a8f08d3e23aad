-- ===== src/Services/Conflicts.antt =====
-- How the services tell a conflict over a lease from one over a state: by the words of the
-- repositories' messages.
use ai_video_replication.Common.{◌≡◌, refl, ◌++◌, true, inl, inr, ◌⊎◌, [], ◌∷◌, String, arith}
use ai_video_replication.Common.Text.{Text, codes, begins_with, contains, begins_with-append}
use ai_video_replication.Store.{RuntimeJob, JobAttempt, WorkerLease, lease_conflict}
use ai_video_replication.Jobs
use ai_video_replication.Attempts
use ai_video_replication.Leases
use ai_video_replication.Services.Heartbeat as Heartbeat
use ai_video_replication.Services.Complete as Complete
use ai_video_replication.Services.Fail as Fail

-- A message on which heartbeat, complete and fail agree that it is a lease conflict.
abbrev pub IsLeaseConflict : Text → Type 0
IsLeaseConflict m =
    (Heartbeat.map_repository_value_error m ≡ lease_conflict m)
    × (Complete.map_repository_value_error m ≡ lease_conflict m)
    × (Fail.map_repository_value_error m ≡ lease_conflict m)

by_beginning :
    (m : Text)
    → (begins_with m (codes "active lease not found") ≡ true)
      ⊎ (begins_with m (codes "lease ") ≡ true)
    → IsLeaseConflict m
unfolding Heartbeat.map_repository_value_error Complete.map_repository_value_error
    Fail.map_repository_value_error
by_beginning m (inl h) = (ground (arith, h), ground (arith, h), ground (arith, h))
by_beginning m (inr h) = (ground (arith, h), ground (arith, h), ground (arith, h))

by_part :
    (m : Text)
    → (contains m (codes "claim_token mismatch") ≡ true)
      ⊎ (contains m (codes "worker_id mismatch") ≡ true)
    → IsLeaseConflict m
unfolding Heartbeat.map_repository_value_error Complete.map_repository_value_error
    Fail.map_repository_value_error
by_part m (inl h) = (ground (arith, h), ground (arith, h), ground (arith, h))
by_part m (inr h) = (ground (arith, h), ground (arith, h), ground (arith, h))

contains-later : (l m part : Text) → contains m part ≡ true → contains (l ++ m) part ≡ true
unfolding contains
contains-later [] m part h = h
contains-later (c ∷ l) m part h = ground (arith, contains-later l m part h)

-- A message of the form "<kind> <id> ...<words>", for any id.
said_of :
    (kind id : Text) (m part : Text)
    → contains m part ≡ true
    → contains (kind ++ (id ++ m)) part ≡ true
said_of kind id m part h = contains-later kind (id ++ m) part (contains-later id m part h)

-- Whatever the ids, heartbeat, complete and fail each turn every message that the repositories raise
-- about a missing lease, about a lease's worker or extensions, or about the claim token or the worker of
-- a job or an attempt into a lease conflict with the same text.
pub map_repository_value_error-IsLeaseConflict :
    (claim_token : String) (l : WorkerLease) (job : RuntimeJob) (a : JobAttempt)
    → IsLeaseConflict (Leases.not_found claim_token)
      × IsLeaseConflict (Leases.about l " worker_id mismatch")
      × IsLeaseConflict (Leases.about l " max_extensions exceeded")
      × IsLeaseConflict (Jobs.about job " claim_token mismatch")
      × IsLeaseConflict (Jobs.about job " claimed_by_worker_id mismatch")
      × IsLeaseConflict (Attempts.about a " claim_token mismatch")
      × IsLeaseConflict (Attempts.about a " worker_id mismatch")
unfolding contains begins_with
map_repository_value_error-IsLeaseConflict t l job a = (
  by_beginning (Leases.not_found t) (
      inl (
        begins_with-append (codes "active lease not found")
          (codes " for claim_token: " ++ codes t))),
  by_beginning (Leases.about l " worker_id mismatch")
      (inr (begins_with-append (codes "lease ") (codes l.lease_id ++ codes " worker_id mismatch"))),
  by_beginning (Leases.about l " max_extensions exceeded") (
      inr (
        begins_with-append (codes "lease ")
          (codes l.lease_id ++ codes " max_extensions exceeded"))),
  by_part (Jobs.about job " claim_token mismatch") (
      inl (
        said_of (codes "job ") (codes job.job_id) (codes " claim_token mismatch")
          (codes "claim_token mismatch") refl)),
  by_part (Jobs.about job " claimed_by_worker_id mismatch") (
      inr (
        said_of (codes "job ") (codes job.job_id) (codes " claimed_by_worker_id mismatch")
          (codes "worker_id mismatch") refl)),
  by_part (Attempts.about a " claim_token mismatch") (
      inl (
        said_of (codes "attempt ") (codes a.attempt_id) (codes " claim_token mismatch")
          (codes "claim_token mismatch") refl)),
  by_part (Attempts.about a " worker_id mismatch") (
      inr (
        said_of (codes "attempt ") (codes a.attempt_id) (codes " worker_id mismatch")
          (codes "worker_id mismatch") refl)),
)
