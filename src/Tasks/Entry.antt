-- ===== src/Tasks/Entry.antt =====
-- app/workers/tasks.py: the five Celery tasks, each a call of `_run_job`.
use ai_video_replication.Common.{Option, none, some, String}
use ai_video_replication.Common.Json.{Dict}
use ai_video_replication.Common.Strings.{◌<>◌}
use ai_video_replication.Aggregate.{Job}
use ai_video_replication.Projects.Session.{Outcome}
use ai_video_replication.Tasks.{ExecutionResult, AssetPlan, World, Surroundings}
use ai_video_replication.Tasks.Run.{Run, run_job}

abbrev pub image_plan : String → AssetPlan
image_plan job_id = record {
  asset_type = "generated_image";
  asset_role = "render_output";
  filename = job_id <> ".png";
  content_type = "image/png";
}

abbrev pub video_plan : String → AssetPlan
video_plan job_id = record {
  asset_type = "generated_video";
  asset_role = "render_output";
  filename = job_id <> ".mp4";
  content_type = "video/mp4";
}

abbrev pub voice_plan : String → AssetPlan
voice_plan job_id = record {
  asset_type = "audio";
  asset_role = "voice_output";
  filename = job_id <> ".wav";
  content_type = "audio/wav";
}

abbrev pub merge_plan : String → String → AssetPlan
merge_plan job_id runtime_version = record {
  asset_type = "export";
  asset_role = "merged_output";
  filename = runtime_version <> "-" <> job_id <> ".mp4";
  content_type = "video/mp4";
}

abbrev pub call : String → String → String → String → Option AssetPlan → Run
call task_name job_id project_id runtime_version asset_plan = record {
  job_id = job_id;
  project_id = project_id;
  runtime_version = runtime_version;
  task_name = task_name;
  asset_plan = asset_plan;
}

-- The names of the tasks, as the dispatch knows them.
pub data Task : Type 0 where
  compile_runtime render_image render_video render_voice merge_runtime : Task

abbrev pub task_call : Task → String → String → String → Run
task_call compile_runtime job_id project_id v = call "compile.runtime" job_id project_id v none
task_call render_image job_id project_id v =
    call "render.image" job_id project_id v (some (image_plan job_id))
task_call render_video job_id project_id v =
    call "render.video" job_id project_id v (some (video_plan job_id))
task_call render_voice job_id project_id v =
    call "render.voice" job_id project_id v (some (voice_plan job_id))
task_call merge_runtime job_id project_id v =
    call "merge.runtime" job_id project_id v (some (merge_plan job_id v))

module _ {S : Type 0} (env : Surroundings S)
    (execute : Job → Run → World S → Outcome ExecutionResult) where
  unfoldable pub run_task : Task → String → String → String → World S → Outcome Dict × World S
  run_task task job_id project_id runtime_version =
      run_job env execute (task_call task job_id project_id runtime_version)
