-- ===== src/Executors/Google.antt =====
-- app/workers/executors.py: the executors over the Google client.
use ai_video_replication.Common.{Option, none, some, String}
use ai_video_replication.Common.Json.{boolean, int, str, obj, Dict, empty, entry}
use ai_video_replication.Aggregate.{Job}
use ai_video_replication.Projects.{Database}
use ai_video_replication.Projects.Session.{Outcome, returned, raised, and_then}
use ai_video_replication.Tasks.{bytes, ExecutionResult, AssetPlan, Surroundings}
use ai_video_replication.Tasks.Materialize.{opt_json}
use ai_video_replication.Tasks.Run.{Run}
use ai_video_replication.Google.{Transport, Client, Generated}
use ai_video_replication.Google.Generate.{
  ImageRequest, VideoRequest, as_provider_error, value_or_null, same_json, generate_image,
  generate_video, generate_voice,
}
use ai_video_replication.Executors.Selection.{resolve_runtime_context}
use ai_video_replication.Executors.Prompts.{resolve_prompt_inputs, resolve_video_inputs}
use ai_video_replication.Executors.Voices.{VoiceInputs, resolve_voice_inputs}

abbrev pub planned_filename : Option AssetPlan → Option String
planned_filename none = none
planned_filename (some p) = some p.filename

-- The entries with which every provider payload begins.
abbrev pub about_run : Job → Run → String → Dict → Dict
about_run job run provider_name rest = entry "job_type" (str job.job_type) (
    entry "task_name" (str run.task_name) (
      entry "runtime_version" (str run.runtime_version)
        (entry "provider_name" (str provider_name) rest)))

-- `ProviderExecutionResult(status="succeeded", binary_payload=...).to_dict()`
abbrev pub delivered : Run → Dict → Generated → ExecutionResult
delivered run payload g = record {
  status = some "succeeded";
  provider = some "google";
  output_filename = planned_filename run.asset_plan;
  provider_payload = some (obj payload);
  binary_payload = some (bytes g.content);
  text_payload = none;
  content_type = some g.content_type;
}

abbrev pub image_options : ImageRequest → Dict
image_options q = entry "sample_count" (int q.sample_count) (
    entry "aspect_ratio" (opt_json q.aspect_ratio) (
      entry "safety_setting" (value_or_null same_json q.safety_setting)
        (entry "person_generation" (opt_json q.person_generation) empty)))

abbrev pub video_options : VideoRequest → Dict
video_options q = entry "sample_count" (int q.sample_count) (
    entry "aspect_ratio" (opt_json q.aspect_ratio) (
      entry "duration_seconds" (value_or_null int q.duration_seconds) (
        entry "fps" (value_or_null int q.fps) (
          entry "seed" (value_or_null int q.seed) (
            entry "resolution" (opt_json q.resolution) (
              entry "person_generation" (opt_json q.person_generation) (
                entry "output_gcs_uri" (opt_json q.output_gcs_uri) (
                  entry "enhance_prompt" (value_or_null boolean q.enhance_prompt)
                    (entry "compression_quality" (opt_json q.compression_quality) empty)))))))))

-- `except GoogleProviderError: raise`, and a code for any other exception
abbrev pub guarded : String → String → Outcome Generated → Outcome Generated
guarded code message (returned g) = returned g
guarded code message (raised e) = raised (as_provider_error code message e)

module _ {S N : Type 0} (env : Surroundings S) (http : Transport N) (client : Client) where
  abbrev pub prompted : Job → Run → String → Option String → Dict → Dict → Generated → Dict
  prompted job run prompt negative_prompt options selection g = about_run job run "google" (
      entry "prompt" (str prompt) (
        entry "negative_prompt" (opt_json negative_prompt) (
          entry "generation_options" (obj options)
            (entry "selection" (obj selection) (entry "google" (obj g.provider_payload) empty)))))

  -- `GoogleImagenExecutor.execute`
  unfoldable pub execute_image : Database → N → Job → Run → Outcome ExecutionResult
  execute_image db net job run =
      and_then (resolve_runtime_context env db run.project_id run.runtime_version) λ c.
        and_then (resolve_prompt_inputs http.repr c job) λ inputs.
          and_then
            (guarded "google_image_generation_failed" "Unexpected Google image generation error: "
              (generate_image http client inputs.0 net).0)
            λ g. returned (
              delivered run
                (prompted job run inputs.0.prompt inputs.0.negative_prompt (image_options inputs.0)
                  inputs.1 g)
                g)

  -- `GoogleVideoExecutor.execute`
  unfoldable pub execute_video : Database → N → Job → Run → Outcome ExecutionResult
  execute_video db net job run =
      and_then (resolve_runtime_context env db run.project_id run.runtime_version) λ c.
        and_then (resolve_video_inputs http.repr c job) λ inputs.
          and_then
            (guarded "google_video_generation_failed" "Unexpected Google video generation error: "
              (generate_video http client inputs.0 net).0)
            λ g. returned (
              delivered run
                (prompted job run inputs.0.prompt inputs.0.negative_prompt (video_options inputs.0)
                  inputs.1 g)
                g)

  -- `GoogleVoiceExecutor.execute`: what the client would return is never built.
  unfoldable pub execute_voice : String → Database → Job → Run → Outcome ExecutionResult
  execute_voice default_language db job run =
      and_then (resolve_runtime_context env db run.project_id run.runtime_version) λ c.
        and_then (resolve_voice_inputs http.repr default_language c job) λ (inputs : VoiceInputs).
          raised (
            as_provider_error "google_tts_generation_failed"
              "Unexpected Google TTS generation error: " (generate_voice http client inputs.text))
