-- ===== src/Jobs/Statuses.antt =====
-- The status sets of RuntimeJobRepository and of the services: CLAIMABLE_STATUSES,
-- TERMINAL_STATUSES (TERMINAL_JOB_STATUSES in the services has the same members), and those that
-- `mark_running` and `mark_failed` test.
use ai_video_replication.Common.{Bool, true, false}
use ai_video_replication.Enums.{JobStatus}

abbrev pub is_claimable : JobStatus → Bool
is_claimable JobStatus.queued = true
is_claimable JobStatus.waiting_retry = true
is_claimable _ = false

abbrev pub is_terminal : JobStatus → Bool
is_terminal JobStatus.succeeded = true
is_terminal JobStatus.failed = true
is_terminal JobStatus.cancelled = true
is_terminal JobStatus.superseded = true
is_terminal JobStatus.stale = true
is_terminal JobStatus.dead_lettered = true
is_terminal _ = false

abbrev pub can_run : JobStatus → Bool
can_run JobStatus.claimed = true
can_run JobStatus.running = true
can_run _ = false

abbrev pub is_failure : JobStatus → Bool
is_failure JobStatus.failed = true
is_failure JobStatus.waiting_retry = true
is_failure JobStatus.stale = true
is_failure _ = false
