-- ===== src/Tests/Runs.antt =====
-- The run of a render job over a store of objects that are known by their keys.
use ai_video_replication.Common.{
  ◌≡◌, ◌≤◌, refl, ◌⊎◌, true, ◌+ℤ◌, if◌then◌else◌, Option, none, some, List, [], ◌∷◌, String, ◌==◌,
  pos, any, find, length, map,
}
use ai_video_replication.Common.Json.{Json, str, empty, entry, get}
use ai_video_replication.Common.Text.{Text, is_text}
use ai_video_replication.Aggregate.{Job, CompiledRuntime, unset, refresh_runtime_status}
use ai_video_replication.Assets.{resolve_bucket, build_runtime_asset_object_key}
use ai_video_replication.Common.Strings.{strip}
use ai_video_replication.Projects.Session.{Exn, provider_error, s3_error, Outcome, returned, raised}
use ai_video_replication.Tasks.{
  Bytes, bytes, bytearray, memoryview, ExecutionResult, AssetPlan, Stat, World, Surroundings,
}
use ai_video_replication.Tasks.Content.{
  asset_requires_binary_payload, stripped_status, validate_execution_result,
  resolve_materialization_payload, resolve_asset_content_type,
}
use ai_video_replication.Tasks.Assets.{bad_uuid, target_of, references_exist}
use ai_video_replication.Tasks.Marks.{
  is_job, get_job, mark_job_running, mark_job_succeeded, update_runtime_status,
  refresh_runtime_aggregate, row_fits,
}
use ai_video_replication.Tasks.Storage.{object_exists, materialize_bytes}
use ai_video_replication.Tasks.Materialize.{
  registration_fits, materialize_generated_asset, register_generated_asset,
}
use ai_video_replication.Tasks.Run.{Run, start, run_job}
use ai_video_replication.Store.{int_fits, text_fits, opt_text_fits}
use ai_video_replication.Projects.{Project}
use ai_video_replication.Tasks.Entry.{video_plan, task_call, render_video}
use ai_video_replication.Tasks.Parts.{marked}
use ai_video_replication.Tasks.Stored.{validate_execution_result-payload}
use ai_video_replication.Tasks.Placement.{Placed, materialize_generated_asset-Placed}
use ai_video_replication.Tasks.Failures.{run_job-refuses, run_job-stuck}

abbrev pub Objects : Type 0
Objects = List Text

abbrev known_id : Json → Option String
known_id (str s) = if s == "somewhere" then none else some s
known_id _ = none

abbrev seen : Stat
seen = record { etag = some "e"; version_id = none; size = some (pos 3); content_type = none }

abbrev pub env : Surroundings Objects
env = record {
  stat_object = λ _ key objects.
      if any (λ k. is_text k key) objects
      then returned seen
      else raised (s3_error (some "NoSuchKey") (some "no such key") "S3 operation failed");
  put_object =
      λ _ key _ _ objects. (returned record { etag = some "e"; version_id = none }, key ∷ objects);
  bucket_map = record {
    reference = "reference";
    generated_images = "images";
    generated_videos = "videos";
    audio = "audio";
    exports = "exports";
    runtime = "runtime";
  };
  uuid = known_id;
  started_at = pos 10;
  worker_finished_at = pos 20;
  finished_at = pos 21;
  asset_id = "a1";
  asset_created_at = pos 20;
}

abbrev pub render : Job
render = record {
  id = "j1";
  project_id = "p";
  payload_version = some "v1";
  job_type = "render_video";
  status = "dispatched";
  provider_name = none;
  payload = entry "runtime_version" (str "v1") empty;
  result_payload = none;
  attempt_count = pos 0;
  max_attempts = pos 3;
  external_task_id = some "t1";
  error_code = none;
  error_message = none;
  started_at = none;
  finished_at = none;
  created_at = pos 1;
}

abbrev lost : Job
lost = record render { payload = entry "sequence_id" (str "somewhere") empty }

abbrev pub v1 : CompiledRuntime
v1 = record {
  id = "r1";
  project_id = "p";
  runtime_version = "v1";
  compile_status = "dispatched";
  dispatch_status = "fully_dispatched";
  dispatch_summary = unset;
  runtime_payload = empty;
  last_error_code = none;
  last_error_message = none;
  compile_started_at = none;
  compile_finished_at = none;
  created_at = pos 0;
}

abbrev shop : Project
shop = record {
  id = "p";
  name = "Shop";
  source_market = "us";
  source_language = "en";
  notes = none;
  created_at = pos 0;
}

abbrev pub before : Job → World Objects
before job = record {
  db = record {
    projects = shop ∷ [];
    sequences = [];
    spus = [];
    vbus = [];
    bridges = [];
    runtimes = v1 ∷ [];
    jobs = job ∷ [];
    assets = [];
  };
  objects = [];
}

abbrev clip : ExecutionResult
clip = record {
  status = some "succeeded";
  provider = some "google";
  output_filename = none;
  provider_payload = none;
  binary_payload = some (bytes (1 ∷ 2 ∷ 3 ∷ []));
  text_payload = none;
  content_type = some "video/mp4";
}

abbrev delivers : Job → Run → World Objects → Outcome ExecutionResult
delivers _ _ _ = returned clip

abbrev stubs : Job → Run → World Objects → Outcome ExecutionResult
stubs _ _ _ = returned (record clip { status = some "succeeded_stub" })

abbrev breaks : Job → Run → World Objects → Outcome ExecutionResult
breaks _ _ _ = raised (provider_error "google_video_generation_failed" "no video")

abbrev clip_run : Run
clip_run = task_call render_video "j1" "p" "v1"

-- The clip is stored under its key, its asset is materialized, and the runtime has succeeded.
delivered :
    let after = (run_job env delivers clip_run (before render)).1 in
    (map (λ a. a.status) after.db.assets ≡ "materialized" ∷ [])
    × (map (λ a. a.object_key) after.db.assets ≡ after.objects)
    × (map (λ r. r.compile_status) after.db.runtimes ≡ "succeeded" ∷ [])
unfolding run_job get_job mark_job_running update_runtime_status refresh_runtime_aggregate
    refresh_runtime_status validate_execution_result materialize_generated_asset get
    register_generated_asset target_of resolve_bucket build_runtime_asset_object_key object_exists
    materialize_bytes mark_job_succeeded resolve_materialization_payload strip
    resolve_asset_content_type is_text row_fits int_fits text_fits opt_text_fits registration_fits
    references_exist ◌+ℤ◌
delivered = (refl, refl, refl)

abbrev target : AssetPlan
target = video_plan "j1"

validate_execution_result-payload_example :
    (stripped_status clip ≡ "succeeded")
    × (asset_requires_binary_payload (some target) ≡ true
        → (b : Bytes) × ((clip.binary_payload ≡ some (bytes b))
            ⊎ (clip.binary_payload ≡ some (bytearray b))
            ⊎ (clip.binary_payload ≡ some (memoryview b)))
          × (resolve_materialization_payload clip target ≡ returned b)
          × (1 ≤ length b))
validate_execution_result-payload_example =
    validate_execution_result-payload clip "render.video" target tt
      (unfold validate_execution_result in refl)

materialize_generated_asset-Placed_example :
    Placed env clip target []
      (materialize_generated_asset env "p" "v1" render target clip (before render))
materialize_generated_asset-Placed_example =
    materialize_generated_asset-Placed env "p" "v1" render target clip (before render)

abbrev stub : ExecutionResult
stub = record clip { status = some "succeeded_stub" }

stub_refused : (e : Exn) × ((run_job env stubs clip_run (before render)).0 ≡ raised e)
stub_refused =
    run_job-refuses env clip_run "j1" "p" stubs render (before render) stub refl refl refl
      (unfold int_fits ◌+ℤ◌ in refl) refl (λ h. unfold strip in cc)

run_job-stuck_example :
    ((run_job env breaks clip_run (before lost)).0 ≡ bad_uuid)
    × (find (is_job "j1") (run_job env breaks clip_run (before lost)).1.db.jobs
        ≡ some (marked env clip_run lost))
    × ((marked env clip_run lost).status ≡ "running")
    × ((run_job env breaks clip_run (before lost)).1.db ≡ (start env clip_run (before lost)).1.db)
run_job-stuck_example =
    run_job-stuck env clip_run "j1" "p" breaks lost (before lost)
      (provider_error "google_video_generation_failed" "no video") (str "somewhere") target refl
      refl refl (unfold int_fits ◌+ℤ◌ in refl) refl refl (unfold get in refl) refl
