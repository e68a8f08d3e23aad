-- ===== src/Executors/Registry/Supported.antt =====
-- Which jobs can succeed.
use ai_video_replication.Common.{
  ◌≡◌, ◌≢◌, refl, ◌⊎◌, inl, inr, Bool-cases, none, some, String, ◌==◌, eq_iff, find, true, pos,
  ◌+ℤ◌,
}
use ai_video_replication.Common.Json.{str, Dict}
use ai_video_replication.Common.Strings.{strip}
use ai_video_replication.Store.{int_fits}
use ai_video_replication.Aggregate.{Job}
use ai_video_replication.Projects.{Database}
use ai_video_replication.Projects.Session.{Exn, Outcome, returned, raised, and_then}
use ai_video_replication.Tasks.{ExecutionResult, World, Surroundings}
use ai_video_replication.Tasks.Content.{stripped_status}
use ai_video_replication.Tasks.Marks.{is_job, mark_job_running}
use ai_video_replication.Tasks.Run.{Run, start, run_job}
use ai_video_replication.Tasks.Effects.{Outcome-cases}
use ai_video_replication.Tasks.Parts.{marked, start-Left}
use ai_video_replication.Tasks.Failures.{recover-raises, run_job-refuses, run_job-overflows}
use ai_video_replication.Executors.Selection.{resolve_runtime_context}
use ai_video_replication.Executors.Voices.{resolve_voice_inputs}
use ai_video_replication.Executors.Google.{execute_voice}
use ai_video_replication.Executors.Registry.{Providers, stubbed, execute}
use ai_video_replication.Google.Generate.{as_provider_error, generate_voice}

-- The types of job that an executor can bring to an end.
abbrev pub IsSupported : String → Type 0
IsSupported t = (t ≡ "compile") ⊎ (t ≡ "render_image") ⊎ (t ≡ "render_video") ⊎ (t ≡ "merge")

-- How an executor ends on the other types: with an exception, or as a stub.
abbrev Useless : Job → Run → Outcome ExecutionResult → Type 0
Useless job run o = ((e : Exn) × (o ≡ raised e)) ⊎ (o ≡ returned (stubbed job run))

clash : {A : Type 0} (a : A) (e : Exn) (o : Outcome A) → o ≡ returned a → o ≡ raised e → ⊥
clash a e o r t = cc

stub_failed : (job : Job) (run : Run) → stripped_status (stubbed job run) ≢ "succeeded"
stub_failed job run = λ h. unfold strip in cc

module _ {S N : Type 0} (env : Surroundings S) (p : Providers S N) where
  execute_voice-raises :
      (language : String) (db : Database) (job : Job) (run : Run)
      → (e : Exn) × (execute_voice env p.http p.client language db job run ≡ raised e)
  unfolding execute_voice
  execute_voice-raises language db job run =
      elim (Outcome-cases (resolve_runtime_context env db run.project_id run.runtime_version)) [
        | inr (x, e) ↦ (x, rw (execute_voice, and_then, e) refl)
        | inl (c, e) ↦ elim (Outcome-cases (resolve_voice_inputs p.http.repr language c job)) [
          | inr (x, f) ↦ (x, rw (execute_voice, and_then, e, f) refl)
          | inl (v, f) ↦ (
            as_provider_error "google_tts_generation_failed"
                "Unexpected Google TTS generation error: " (generate_voice p.http p.client v.text),
            rw (execute_voice, and_then, e, f) refl,
          )
        ]
      ]

  execute-IsSupported :
      (job : Job) (run : Run) (w : World S)
      → IsSupported job.job_type ⊎ Useless job run (execute env p job run w)
  unfolding execute
  execute-IsSupported job run w = elim (Bool-cases (job.job_type == "compile")) [
    | inl a ↦ inl (inl ((eq_iff job.job_type "compile").0 a))
    | inr a ↦ elim (Bool-cases (job.job_type == "render_image")) [
      | inl b ↦ inl (inr (inl ((eq_iff job.job_type "render_image").0 b)))
      | inr b ↦ elim (Bool-cases (job.job_type == "render_video")) [
        | inl c ↦ inl (inr (inr (inl ((eq_iff job.job_type "render_video").0 c))))
        | inr c ↦ elim (Bool-cases (job.job_type == "render_voice")) [
          | inl d ↦
              let (x, e) = execute_voice-raises p.default_language w.db job run in
              inr (inl (x, rw (execute, a, b, c, d, e) refl))
          | inr d ↦ elim (Bool-cases (job.job_type == "merge")) [
            | inl m ↦ inl (inr (inr (inr ((eq_iff job.job_type "merge").0 m))))
            | inr m ↦ inr (inr (rw (execute, a, b, c, d, m) refl))
          ]
        ]
      ]
    ]
  ]

  -- A run whose executor raises does not return.
  raising_run :
      (run : Run) (id pid : String) (job : Job) (w : World S) (x : Exn)
      → env.uuid (str run.job_id) ≡ some id
      → env.uuid (str run.project_id) ≡ some pid
      → find (is_job id) w.db.jobs ≡ some job
      → int_fits (job.attempt_count +ℤ pos 1) ≡ true
      → execute env p (marked env run job) run (start env run w).1 ≡ raised x
      → (y : Exn) × ((run_job env (execute env p) run w).0 ≡ raised y)
  unfolding run_job
  raising_run run id pid job w x hj hp f n e =
      let l = start-Left env run id pid job w hj hp f n in
      let (y, again) = recover-raises env run id pid none x (start env run w).1 in
      (y, rw (run_job, l.ran, e) again)

  counted_run :
      (run : Run) (id pid : String) (job : Job) (w : World S) (result : Dict)
      → env.uuid (str run.job_id) ≡ some id
      → env.uuid (str run.project_id) ≡ some pid
      → find (is_job id) w.db.jobs ≡ some job
      → int_fits (job.attempt_count +ℤ pos 1) ≡ true
      → (run_job env (execute env p) run w).0 ≡ returned result
      → IsSupported job.job_type
  counted_run run id pid job w result hj hp f n r =
      let j = marked env run job in
      elim (execute-IsSupported j run (start env run w).1) [
        | inl s ↦ unfold mark_job_running in s
        | inr (inl (x, e)) ↦
            let (y, again) = raising_run run id pid job w x hj hp f n e in
            absurd (clash result y (run_job env (execute env p) run w).0 r again)
        | inr (inr e) ↦
            let (y, again) =
              run_job-refuses env run id pid (execute env p) job w (stubbed j run) hj hp f n e
                (stub_failed j run) in
            absurd (clash result y (run_job env (execute env p) run w).0 r again)
      ]

  -- If a run returns, then its job, found under the id of the run, is of the type compile,
  -- render_image, render_video or merge: a voice job and a job of any other type raise, whatever the
  -- relay, the object store and the database hold.
  pub run_job-IsSupported :
      (run : Run) (id pid : String) (job : Job) (w : World S) (result : Dict)
      → env.uuid (str run.job_id) ≡ some id
      → env.uuid (str run.project_id) ≡ some pid
      → find (is_job id) w.db.jobs ≡ some job
      → (run_job env (execute env p) run w).0 ≡ returned result
      → IsSupported job.job_type
  run_job-IsSupported run id pid job w result hj hp f r =
      elim (Bool-cases (int_fits (job.attempt_count +ℤ pos 1))) [
        | inl n ↦ counted_run run id pid job w result hj hp f n r
        | inr n ↦
            let (y, again) = run_job-overflows env run id pid (execute env p) job w hj f n in
            absurd (clash result y (run_job env (execute env p) run w).0 r again)
      ]
