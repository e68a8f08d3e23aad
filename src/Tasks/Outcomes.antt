-- ===== src/Tasks/Outcomes.antt =====
-- How a run of a task ends.
use ai_video_replication.Common.{◌≡◌, Bool, true, Option, none, some, String, find}
use ai_video_replication.Common.Json.{Dict}
use ai_video_replication.Store.{text_fits}
use ai_video_replication.Aggregate.{Job}
use ai_video_replication.Projects.Session.{Exn, Outcome, returned, raised}
use ai_video_replication.Tasks.{ExecutionResult, World, Surroundings}
use ai_video_replication.Tasks.Content.{extract_error_details}
use ai_video_replication.Tasks.Marks.{is_job}
use ai_video_replication.Tasks.Run.{Run, finish}

-- What `execution_result` is in the failure handler, if the run gets there after the executor.
abbrev pub reported : Outcome ExecutionResult → Option ExecutionResult
reported (returned r) = some r
reported (raised e) = none

module _ {S : Type 0} where
  -- The row of a job whose run returned, or raised.
  abbrev pub Ended : String → Outcome Dict × World S → Type 0
  Ended id (returned result, w) =
      (j : Job) × (find (is_job id) w.db.jobs ≡ some j)
      × (j.status ≡ "succeeded")
      × (j.result_payload ≡ some result)
  Ended id (raised e, w) =
      (j : Job) × (find (is_job id) w.db.jobs ≡ some j)
      × (j.status ≡ "failed")
      × (j.error_code ≡ some (extract_error_details e).0)
      × (j.error_message ≡ some (extract_error_details e).1)

-- Whether the code of an exception fits its column
abbrev pub code_fits : Option Exn → Bool
code_fits none = true
code_fits (some e) = text_fits 100 (extract_error_details e).0

module _ {S : Type 0} (env : Surroundings S) (run : Run) where
  -- What the executor raises on a job that is marked, or what is raised after it.
  abbrev pub failure_of :
      (Job → Run → World S → Outcome ExecutionResult) → Job → World S → Option Exn
  failure_of execute job w = elim (execute job run w) [
    | raised e ↦ some e
    | returned r ↦ elim (finish env run job r w).0 [ raised e ↦ some e | returned _ ↦ none ]
  ]
