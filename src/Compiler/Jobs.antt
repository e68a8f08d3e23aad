-- ===== src/Compiler/Jobs.antt =====
-- app/compilers/orchestrator/compiler_service.py and app/services/job_dispatch_service.py: the jobs of
-- a compile, and their tasks.
use ai_video_replication.Common.{
  ◌-◌, Bool, true, false, ◌&&◌, if◌then◌else◌, Option, none, some, List, [], ◌∷◌, ◌++◌, String,
  ◌==◌, pos, ltb_ℤ, leb_ℤ, nat_eq, count, select, length, given,
}
use ai_video_replication.Common.Json.{int, str, obj, Dict, empty, entry, merge, put}
use ai_video_replication.Aggregate.{Job, DispatchedJob, Dispatched}
use ai_video_replication.Projects.{Sequence, Database, order_by, first}
use ai_video_replication.Projects.Session.{returned, raised, M, ◌>>=◌, ◌>>◌, pure}
use ai_video_replication.Tasks.Marks.{write_job}
use ai_video_replication.Tasks.Run.{Run}
use ai_video_replication.Tasks.Entry.{
  Task, compile_runtime, render_image, render_video, render_voice, merge_runtime, task_call,
}
use ai_video_replication.Compiler.{Outside, Transaction}
use ai_video_replication.Compiler.Prompt.{build_render_image_payload}

-- `JobDispatchService.task_map`
abbrev pub task_of : String → Option Task
task_of job_type =
    if job_type == "compile"
    then some compile_runtime
    else if job_type == "render_image"
    then some render_image
    else if job_type == "render_video"
    then some render_video
    else if job_type == "render_voice"
    then some render_voice
    else if job_type == "merge"
    then some merge_runtime
    else none

abbrev pub first_in_order : Sequence → Sequence → Bool
first_in_order a b =
    if ltb_ℤ a.sequence_index b.sequence_index
    then true
    else leb_ℤ a.sequence_index b.sequence_index && leb_ℤ a.created_at b.created_at

abbrev pub selector_of : Option Sequence → Option Dict
selector_of none = none
selector_of (some s) = some (
    entry "sequence_id" (str s.id) (
      entry "sequence_index" (int s.sequence_index)
        (entry "strategy" (str "compiler_default_first_sequence") empty)))

unfoldable pub resolve_primary_sequence_selector : Database → String → Option Dict
resolve_primary_sequence_selector db project_id =
    selector_of
      (first (order_by first_in_order (select (λ s. s.project_id == project_id) db.sequences)))

-- `payload["sequence_selector"] = dict(primary_sequence_selector)`, if there is one
abbrev pub with_selector : Option Dict → Dict → Dict
with_selector none payload = payload
with_selector (some selector) payload = put "sequence_selector" (obj selector) payload

abbrev pub job_payload : String → Option Dict → Dict → String → Dict
job_payload runtime_version selector image job_type =
    let payload =
      entry "runtime_version" (str runtime_version)
        (entry "dispatch_source" (str "compile_endpoint") empty) in
    if job_type == "render_image"
    then with_selector selector (merge payload image)
    else if job_type == "render_video"
    then with_selector selector payload
    else payload

abbrev pub job_types : List String
job_types = "compile" ∷ "render_image" ∷ "render_video" ∷ []

-- `job` after `dispatch`
abbrev pub with_task : Option String → Job → Job
with_task none job = record job { external_task_id = none; result_payload = none }
with_task (some task_id) job = record job {
  external_task_id = some task_id;
  result_payload = some (entry "celery_task_id" (str task_id) empty);
  status = "dispatched";
}

abbrev pub dispatched_job : Job → DispatchedJob
dispatched_job job = record {
  job_id = job.id;
  job_type = job.job_type;
  status = job.status;
  external_task_id = job.external_task_id;
}

abbrev pub is_sent : DispatchedJob → Bool
is_sent item = elim item.external_task_id [ none ↦ false | some _ ↦ true ]

unfoldable pub dispatch_summary_of : String → List DispatchedJob → Dispatched
dispatch_summary_of runtime_version jobs = record {
  runtime_version = runtime_version;
  job_count = length jobs;
  queued_job_count = count (λ j. j.status == "queued") jobs;
  dispatched_job_count = count is_sent jobs;
  undispatched_job_count = length jobs - count is_sent jobs;
  dispatch_status =
      if nat_eq (count is_sent jobs) (length jobs)
      then "fully_dispatched"
      else "partially_dispatched";
  jobs = jobs;
}

module _ {B : Type 0} (env : Outside B) where
  abbrev pub new_job : String → String → Option Dict → Dict → String → Job
  new_job project_id runtime_version selector image job_type = record {
    id = env.job_id job_type;
    project_id = project_id;
    payload_version = some runtime_version;
    job_type = job_type;
    status = "queued";
    provider_name = none;
    payload = job_payload runtime_version selector image job_type;
    result_payload = none;
    attempt_count = pos 0;
    max_attempts = pos 3;
    external_task_id = none;
    error_code = none;
    error_message = none;
    started_at = none;
    finished_at = none;
    created_at = env.job_created_at job_type;
  }

  abbrev pub new_jobs : String → String → Option Dict → Dict → List String → List Job
  new_jobs project_id runtime_version selector image [] = []
  new_jobs project_id runtime_version selector image (t ∷ rest) =
      new_job project_id runtime_version selector image t
      ∷ new_jobs project_id runtime_version selector image rest

  -- `task.delay(...)`, the message's id as a truth value
  abbrev pub delay : Run → M (Transaction B) (Option String)
  delay run s =
      let (sent, broker) = env.delay run s.broker in
      elim sent [
        | returned id ↦ (returned (given (some id)), record s { broker = broker })
        | raised e ↦ (raised e, record s { broker = broker })
      ]

  unfoldable pub dispatch : Job → String → M (Transaction B) (Option String)
  dispatch job runtime_version = elim (task_of job.job_type) [
    | none ↦ pure none
    | some task ↦ delay (task_call task job.id job.project_id runtime_version)
  ]

  abbrev pub save_job : Job → M (Transaction B) (Unit {0})
  save_job job s = (returned tt, record s { db = write_job job s.db })

  unfoldable pub dispatch_all : String → List Job → M (Transaction B) (List DispatchedJob)
  dispatch_all runtime_version [] = pure []
  dispatch_all runtime_version (job ∷ rest) = dispatch job runtime_version >>= λ task_id.
      save_job (with_task task_id job)
      >> (dispatch_all runtime_version rest >>= λ items.
          pure (dispatched_job (with_task task_id job) ∷ items))

  abbrev pub commit : M (Transaction B) (Unit {0})
  commit s = (returned tt, record s { saved = s.db })

  abbrev pub add_jobs : List Job → M (Transaction B) (Unit {0})
  add_jobs jobs s = (returned tt, record s { db = record s.db { jobs = s.db.jobs ++ jobs } })

  unfoldable pub create_and_dispatch_jobs : String → String → M (Transaction B) Dispatched
  create_and_dispatch_jobs project_id runtime_version s =
      let jobs =
        new_jobs project_id runtime_version (resolve_primary_sequence_selector s.db project_id)
          (build_render_image_payload env.repr s.db project_id runtime_version) job_types in
      (add_jobs jobs
          >> commit
          >> (dispatch_all runtime_version jobs >>= λ items.
              pure (dispatch_summary_of runtime_version items)))
        s
