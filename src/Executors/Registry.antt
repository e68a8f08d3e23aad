-- ===== src/Executors/Registry.antt =====
-- app/workers/executors.py: the executor of the compile jobs, the stub, and the executor of each job
-- type.
pub mod Supported
use ai_video_replication.Common.{
  ℕ, ◌+◌, Bool, true, false, if◌then◌else◌, Option, none, some, List, [], ◌∷◌, ◌++◌, String, ◌==◌,
  pos,
}
use ai_video_replication.Common.Json.{
  Json, null, int, str, arr, obj, Items, nil, cons, Dict, empty, entry, get, coerce_dict,
  coerce_list,
}
use ai_video_replication.Common.Strings.{◌<>◌, join_with, str_ℕ}
use ai_video_replication.Aggregate.{Job, CompiledRuntime}
use ai_video_replication.Projects.{Database}
use ai_video_replication.Projects.Session.{Outcome, returned, raised, and_then}
use ai_video_replication.Tasks.{ExecutionResult, AssetPlan, World, Surroundings}
use ai_video_replication.Tasks.Run.{Run}
use ai_video_replication.Google.{Transport, Client}
use ai_video_replication.Google.Download.{item_count}
use ai_video_replication.Executors.Selection.{Context, resolve_runtime_context}
use ai_video_replication.Executors.Google.{
  planned_filename, about_run, execute_image, execute_video, execute_voice,
}
use ai_video_replication.Executors.Merge.{Tools, execute_merge}

-- The sum of `len(sequence[kind])` over the sequences
unfoldable pub unit_count : String → Items → ℕ
unit_count kind nil = 0
unit_count kind (cons x xs) =
    item_count (coerce_list (get kind (coerce_dict (some x)))) + unit_count kind xs

-- `sorted(d.keys())`
abbrev pub insert_key : String → List String → List String
insert_key k [] = k ∷ []
insert_key k (l ∷ ls) = elim (Prim.Native.String.compare k l) [
  | Prim.Native.Nat.Ordering.gt ↦ l ∷ insert_key k ls
  | _ ↦ k ∷ l ∷ ls
]

unfoldable pub sorted_keys : Dict → List String
sorted_keys empty = []
sorted_keys (entry k v d) = insert_key k (sorted_keys d)

abbrev pub key_items : List String → Items
key_items [] = nil
key_items (k ∷ ks) = cons (str k) (key_items ks)

abbrev pub or_null_json : Option Json → Json
or_null_json none = null
or_null_json (some v) = v

abbrev pub compile_text : Job → Run → Context → String
compile_text job run c = join_with "\n" (
    "compile runtime execution materialized from persisted runtime payload"
    ∷ ("project_id=" <> run.project_id)
    ∷ ("runtime_version=" <> run.runtime_version)
    ∷ ("job_id=" <> job.id)
    ∷ ("runtime_id=" <> c.runtime.id)
    ∷ ("sequence_count=" <> str_ℕ (item_count c.sequences))
    ∷ ("spu_count=" <> str_ℕ (unit_count "spus" c.sequences))
    ∷ ("vbu_count=" <> str_ℕ (unit_count "vbus" c.sequences))
    ∷ [])

abbrev pub compile_payload : Job → Run → Context → Dict
compile_payload job run c = about_run job run "runtime_payload" (
    entry "runtime_id" (str c.runtime.id) (
      entry "runtime_compile_status" (str c.runtime.compile_status) (
        entry "runtime_dispatch_status" (str c.runtime.dispatch_status) (
          entry "payload_project_id" (or_null_json (get "project_id" c.runtime_payload)) (
            entry "compile_options_keys" (arr (key_items (sorted_keys c.compile_options))) (
              entry "sequence_count" (int (pos (item_count c.sequences))) (
                entry "spu_count" (int (pos (unit_count "spus" c.sequences)))
                  (entry "vbu_count" (int (pos (unit_count "vbus" c.sequences))) empty))))))))

abbrev pub compiled : Job → Run → Context → ExecutionResult
compiled job run c = record {
  status = some "succeeded";
  provider = some "runtime_payload";
  output_filename = planned_filename run.asset_plan;
  provider_payload = some (obj (compile_payload job run c));
  binary_payload = none;
  text_payload = some (compile_text job run c);
  content_type = some "text/plain; charset=utf-8";
}

abbrev pub stub_text : Job → Run → Option AssetPlan → Option String
stub_text job run none = none
stub_text job run (some plan) = some (
    "stub materialized artifact\nproject_id=" <> run.project_id <> "\nruntime_version="
    <> run.runtime_version <> "\njob_id=" <> job.id <> "\njob_type=" <> job.job_type
    <> "\ntask_name=" <> run.task_name <> "\nprovider_name=stub\n")

abbrev pub stub_type : Option AssetPlan → String
stub_type none = "text/plain; charset=utf-8"
stub_type (some plan) = plan.content_type

-- `BaseProviderExecutor.execute`
abbrev pub stubbed : Job → Run → ExecutionResult
stubbed job run = record {
  status = some "succeeded_stub";
  provider = some "stub";
  output_filename = planned_filename run.asset_plan;
  provider_payload = some (obj (about_run job run "stub" empty));
  binary_payload = none;
  text_payload = stub_text job run run.asset_plan;
  content_type = some (stub_type run.asset_plan);
}

-- What the executors take from outside: the client's network, the settings, and what the database
-- shows while a merge waits.
pub record Providers (S N : Type 0) : Type 0 where
  pub http : Transport N
  pub net : N
  pub client : Client
  pub default_language : String
  pub tools : Tools S
  pub views : ℕ → Database
  pub later : ℕ → Database

module _ {S N : Type 0} (env : Surroundings S) (p : Providers S N) where
  -- `CompileRuntimeExecutor.execute`
  unfoldable pub execute_compile : Database → Job → Run → Outcome ExecutionResult
  execute_compile db job run =
      and_then (resolve_runtime_context env db run.project_id run.runtime_version)
        λ c. returned (compiled job run c)

  -- `ProviderExecutorRegistry.resolve(job.job_type).execute(...)`
  unfoldable pub execute : Job → Run → World S → Outcome ExecutionResult
  execute job run w =
      if job.job_type == "compile"
      then execute_compile w.db job run
      else if job.job_type == "render_image"
      then execute_image env p.http p.client w.db p.net job run
      else if job.job_type == "render_video"
      then execute_video env p.http p.client w.db p.net job run
      else if job.job_type == "render_voice"
      then execute_voice env p.http p.client p.default_language w.db job run
      else if job.job_type == "merge"
      then execute_merge env p.tools p.views p.later w.db w.objects job run
      else returned (stubbed job run)
