-- ===== src/Tests/Compiles.antt =====
-- The compile of a project with one sequence and one SPU, whose jobs the broker takes.
use ai_video_replication.Common.{◌≡◌, refl, true, none, some, List, [], ◌∷◌, pos, map}
use ai_video_replication.Common.Json.{str, empty, get}
use ai_video_replication.Common.Strings.{strip, str_ℕ, str_ℤ}
use ai_video_replication.Aggregate.{CompiledRuntime, unset}
use ai_video_replication.Projects.{Project, Sequence, Spu, Database}
use ai_video_replication.Projects.Session.{Outcome, returned, raised, failure}
use ai_video_replication.Validation.{validate, validate_project}
use ai_video_replication.Tasks.Run.{Run}
use ai_video_replication.Executors.Selection.{load_runtime_payload}
use ai_video_replication.Compiler.{CompileRequest, Outside, Transaction}
use ai_video_replication.Compiler.Packet.{parts_of, runtime_packet}
use ai_video_replication.Compiler.Prompt.{build_render_image_payload}
use ai_video_replication.Compiler.Jobs.{dispatch, dispatch_all, create_and_dispatch_jobs}
use ai_video_replication.Compiler.Runs.{
  next_version, resolve_runtime_version, check_project, dispatch_runtime, compile_body,
  compile_project,
}
use ai_video_replication.Compiler.Found.{compile_project-load_runtime_payload}
use ai_video_replication.Tests.Runs.{env}

abbrev shop : Project
shop = record {
  id = "p";
  name = "Shop";
  source_market = "US";
  source_language = "en-US";
  notes = some " a note ";
  created_at = pos 0;
}

abbrev hook : Sequence
hook = record {
  id = "s1";
  project_id = "p";
  sequence_index = pos 1;
  sequence_type = "hook";
  persuasive_goal = none;
  status = "draft";
  created_at = pos 1;
}

abbrev bottle : Spu
bottle = record {
  id = "u1";
  project_id = "p";
  sequence_id = some "s1";
  spu_code = "spu-1";
  display_name = "Bottle";
  asset_role = "primary_visual";
  duration_ms = pos 5000;
  generation_mode = "veo_segment";
  prompt_text = some "A bottle.";
  negative_prompt_text = none;
  visual_constraints = empty;
  status = "draft";
  created_at = pos 2;
}

abbrev project_rows : Database
project_rows = record {
  projects = shop ∷ [];
  sequences = hook ∷ [];
  spus = bottle ∷ [];
  vbus = [];
  bridges = [];
  runtimes = [];
  jobs = [];
  assets = [];
}

-- A broker that keeps the runs it is sent, and one that is down.
abbrev outside : Outside (List Run)
outside = record {
  started_at = pos 10;
  finished_at = pos 11;
  created_at = pos 11;
  runtime_id = "r1";
  job_id = λ job_type. job_type;
  job_created_at = λ _. pos 12;
  repr = λ _. "{...}";
  delay = λ run runs. (returned "t", run ∷ runs);
}

abbrev broken : Outside (List Run)
broken = record outside { delay = λ run runs. (raised (failure "no broker"), runs) }

abbrev request : CompileRequest
request = record {
  project_id = "p";
  runtime_version = none;
  compile_reason = "manual";
  compile_options = empty;
  auto_version = true;
  dispatch_jobs = true;
}

abbrev at_start : Transaction (List Run)
at_start = record { db = project_rows; saved = project_rows; broker = [] }

abbrev nothing : CompiledRuntime
nothing = record {
  id = "";
  project_id = "";
  runtime_version = "";
  compile_status = "";
  dispatch_status = "";
  dispatch_summary = unset;
  runtime_payload = empty;
  last_error_code = none;
  last_error_message = none;
  compile_started_at = none;
  compile_finished_at = none;
  created_at = pos 0;
}

abbrev runtime_in : Outcome CompiledRuntime → CompiledRuntime
runtime_in (returned r) = r
runtime_in (raised _) = nothing

compile_project-load_runtime_payload_example :
    let done = compile_project outside request at_start in
    let r = runtime_in done.0 in
    (load_runtime_payload env done.1.saved r.project_id r.runtime_version ≡ returned r)
    × (r.runtime_payload ≡ runtime_packet request r.runtime_version (parts_of project_rows "p"))
compile_project-load_runtime_payload_example =
    compile_project-load_runtime_payload outside env request
      (runtime_in (compile_project outside request at_start).0) at_start refl tt tt
      (unfold compile_project compile_body dispatch_runtime create_and_dispatch_jobs dispatch_all
          dispatch check_project validate_project validate in
        refl)

-- Three jobs go out, and the version is the first.
sent :
    let done = compile_project outside request at_start in
    (map (λ j. j.status) done.1.saved.jobs ≡ "dispatched" ∷ "dispatched" ∷ "dispatched" ∷ [])
    × (map (λ r. r.task_name) done.1.broker
        ≡ "render.video" ∷ "render.image" ∷ "compile.runtime" ∷ [])
    × (map (λ r. r.runtime_version) done.1.saved.runtimes ≡ "v1" ∷ [])
unfolding compile_project compile_body dispatch_runtime create_and_dispatch_jobs dispatch_all
    dispatch check_project validate_project validate resolve_runtime_version next_version str_ℕ
sent = (refl, refl, refl)

-- When the broker is down, the queued jobs and the runtime stay.
not_sent :
    let done = compile_project broken request at_start in
    (done.0 ≡ raised (failure "no broker"))
    × (map (λ j. j.status) done.1.db.jobs ≡ "queued" ∷ "queued" ∷ "queued" ∷ [])
    × (map (λ r. r.compile_status) done.1.db.runtimes ≡ "compiled" ∷ [])
unfolding compile_project compile_body dispatch_runtime create_and_dispatch_jobs dispatch_all
    dispatch check_project validate_project validate
not_sent = (refl, refl, refl)

prompt_text :
    get "prompt" (build_render_image_payload (λ _. "{...}") project_rows "p" "v1")
    ≡ some (
        str
          "Project: Shop\nTarget market: US\nTarget language: en-US\nProject notes: a note\nSequence plan: Sequence 1 - hook\nPrimary visual subject: Bottle\nA bottle.")
unfolding build_render_image_payload strip str_ℕ get str_ℤ
prompt_text = refl

-- A version that a request has named is not passed over.
named_twice :
    let named = record nothing { project_id = "p"; runtime_version = "v2" } in
    next_version (record project_rows { runtimes = named ∷ [] }) "p" ≡ "v2"
unfolding next_version str_ℕ
named_twice = refl
