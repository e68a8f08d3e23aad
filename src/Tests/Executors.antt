-- ===== src/Tests/Executors.antt =====
-- The executors of the worker, on the world of Runs and the relay of Relay.
use ai_video_replication.Common.{◌≡◌, refl, ℕ, some, List, [], ◌∷◌, pos, ◌+ℤ◌}
use ai_video_replication.Store.{int_fits, opt_text_fits}
use ai_video_replication.Common.Json.{Json, Dict, int, arr, nil, empty, entry, get}
use ai_video_replication.Common.Strings.{strip}
use ai_video_replication.Common.Values.{int_of}
use ai_video_replication.Aggregate.{Job, CompiledRuntime, refresh_runtime_status}
use ai_video_replication.Projects.Session.{Outcome, returned, raised}
use ai_video_replication.Tasks.{World}
use ai_video_replication.Tasks.Content.{validate_execution_result}
use ai_video_replication.Tasks.Marks.{
  get_job, mark_job_running, load_runtime, mark_job_succeeded, update_runtime_status,
  refresh_runtime_aggregate, row_fits,
}
use ai_video_replication.Tasks.Run.{Run, run_job}
use ai_video_replication.Tasks.Entry.{task_call, compile_runtime}
use ai_video_replication.Executors.Values.{coerce_int, normalize_video_duration_seconds}
use ai_video_replication.Executors.Durations.{Nearest, normalize_video_duration_seconds-Nearest}
use ai_video_replication.Executors.Merge.{Tools}
use ai_video_replication.Executors.Selection.{load_runtime_payload, resolve_runtime_context}
use ai_video_replication.Executors.Registry.{Providers, execute, execute_compile}
use ai_video_replication.Executors.Registry.Supported.{IsSupported, run_job-IsSupported}
use ai_video_replication.Tests.Runs.{Objects, env, render, v1, before}
use ai_video_replication.Tests.Relay.{relay}

abbrev tools : Tools Objects
tools = record {
  get_bytes = λ _ _ _. returned ([]);
  temp_dir = "/tmp";
  run_command = λ _ _ _. record { returncode = pos 0; stderr = ""; output = 1 ∷ [] };
}

abbrev compile_job : Job
compile_job = record render { job_type = "compile" }

abbrev planned : CompiledRuntime
planned = record v1 { runtime_payload = entry "sequences" (arr nil) empty }

abbrev world : World Objects
world = let w = before compile_job in record w { db = record w.db { runtimes = planned ∷ [] } }

abbrev providers : Providers Objects (List Json)
providers = record {
  http = relay;
  net = [];
  client = record { api_key = "k"; video_model = "veo"; image_model = "imagen"; tts_model = "tts" };
  default_language = "en-US";
  tools = tools;
  views = λ _. world.db;
  later = λ _. world.db;
}

abbrev compile_run : Run
compile_run = task_call compile_runtime "j1" "p" "v1"

-- What a call that returns has returned.
abbrev result_in : Outcome Dict → Dict
result_in (returned d) = d
result_in (raised _) = empty

run_job-IsSupported_example : IsSupported compile_job.job_type
run_job-IsSupported_example =
    run_job-IsSupported env providers compile_run "j1" "p" compile_job world
      (result_in (run_job env (execute env providers) compile_run world).0) refl refl refl
      (unfold run_job execute execute_compile resolve_runtime_context load_runtime_payload
          load_runtime get_job mark_job_running update_runtime_status refresh_runtime_aggregate
          refresh_runtime_status validate_execution_result mark_job_succeeded get strip row_fits
          int_fits opt_text_fits ◌+ℤ◌ in
        refl)

nine_seconds : normalize_video_duration_seconds (some (int (pos 9))) ≡ some 8
unfolding normalize_video_duration_seconds coerce_int int_of
nine_seconds = refl

normalize_video_duration_seconds-Nearest_example :
    (n : ℕ) × (normalize_video_duration_seconds (some (int (pos 5))) ≡ some n) × Nearest 5 n
normalize_video_duration_seconds-Nearest_example =
    normalize_video_duration_seconds-Nearest (some (int (pos 5))) (pos 5)
      (unfold coerce_int int_of in refl)
