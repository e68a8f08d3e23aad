-- ===== src/Compiler/Runs.antt =====
-- app/compilers/orchestrator/compiler_service.py and app/services/runtime_version_service.py: the
-- compile of a project.
use ai_video_replication.Common.{
  ◌+◌, if◌then◌else◌, none, some, [], ◌∷◌, ◌++◌, String, ◌==◌, select, find, length, given,
}
use ai_video_replication.Common.Strings.{◌<>◌, str_ℕ}
use ai_video_replication.Store.{ok, err}
use ai_video_replication.Aggregate.{CompiledRuntime, Dispatched, unset, dispatched}
use ai_video_replication.Projects.{Database}
use ai_video_replication.Projects.Session.{
  Outcome, returned, raised, value_error, M, ◌>>=◌, ◌>>◌, pure, lift,
}
use ai_video_replication.Validation.{validate_project}
use ai_video_replication.Tasks.Marks.{write_runtime}
use ai_video_replication.Compiler.{CompileRequest, Outside, Transaction}
use ai_video_replication.Compiler.Packet.{parts_of, runtime_packet}
use ai_video_replication.Compiler.Jobs.{create_and_dispatch_jobs, commit}

-- `RuntimeVersionService.next_version`
unfoldable pub next_version : Database → String → String
next_version db project_id =
    "v" <> str_ℕ (length (select (λ r. r.project_id == project_id) db.runtimes) + 1)

unfoldable pub resolve_runtime_version : Database → CompileRequest → String
resolve_runtime_version db request = elim (given request.runtime_version) [
  | none ↦ next_version db request.project_id
  | some v ↦ if request.auto_version then next_version db request.project_id else v
]

abbrev pub undispatched : String → Dispatched
undispatched runtime_version = record {
  runtime_version = runtime_version;
  job_count = 0;
  queued_job_count = 0;
  dispatched_job_count = 0;
  undispatched_job_count = 0;
  dispatch_status = "not_dispatched";
  jobs = [];
}

-- The checks before anything is written.
unfoldable pub check_project : Database → String → Outcome (Unit {0})
check_project db project_id = elim (find (λ p. p.id == project_id) db.projects) [
  | none ↦ raised (value_error "project_not_found")
  | some project ↦ elim (validate_project db project_id) [
    | err _ ↦ raised (value_error "project_not_found")
    | ok result ↦ if result.is_valid then returned tt else raised (value_error "project_invalid")
  ]
]

abbrev pub with_dispatch : String → Dispatched → CompiledRuntime → CompiledRuntime
with_dispatch compile_status summary r = record r {
  compile_status = compile_status;
  dispatch_status = summary.dispatch_status;
  dispatch_summary = dispatched summary;
}

module _ {B : Type 0} (env : Outside B) where
  abbrev pub new_runtime : Database → CompileRequest → String → CompiledRuntime
  new_runtime db request runtime_version = record {
    id = env.runtime_id;
    project_id = request.project_id;
    runtime_version = runtime_version;
    compile_status = "compiled";
    dispatch_status = "not_dispatched";
    dispatch_summary = unset;
    runtime_payload = runtime_packet request runtime_version (parts_of db request.project_id);
    last_error_code = none;
    last_error_message = none;
    compile_started_at = some env.started_at;
    compile_finished_at = some env.finished_at;
    created_at = env.created_at;
  }

  abbrev pub add_runtime : CompiledRuntime → M (Transaction B) (Unit {0})
  add_runtime r s =
      (returned tt, record s { db = record s.db { runtimes = s.db.runtimes ++ (r ∷ []) } })

  abbrev pub save_runtime : CompiledRuntime → M (Transaction B) CompiledRuntime
  save_runtime r s = (returned r, record s { db = write_runtime r s.db })

  unfoldable pub dispatch_runtime :
      CompileRequest → CompiledRuntime → M (Transaction B) CompiledRuntime
  dispatch_runtime request r =
      if request.dispatch_jobs
      then (create_and_dispatch_jobs env r.project_id r.runtime_version >>= λ summary.
          save_runtime (with_dispatch "dispatched" summary r))
      else save_runtime (with_dispatch r.compile_status (undispatched r.runtime_version) r)

  unfoldable pub compile_body : CompileRequest → M (Transaction B) CompiledRuntime
  compile_body request s =
      let r = new_runtime s.db request (resolve_runtime_version s.db request) in
      (lift (check_project s.db request.project_id)
          >> add_runtime r
          >> (dispatch_runtime request r >>= λ done. commit env >> pure done))
        s

  -- The request's session is closed in the end, which drops what is not committed.
  abbrev pub closed : {A : Type 0} → Outcome A × Transaction B → Outcome A × Transaction B
  closed (returned a, s) = (returned a, s)
  closed (raised e, s) = (raised e, record s { db = s.saved })

  unfoldable pub compile_project : CompileRequest → M (Transaction B) CompiledRuntime
  compile_project request s = closed (compile_body request s)
