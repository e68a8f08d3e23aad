-- ===== src/Tests/Queues.antt =====
-- The queue of the scenario.
use ai_video_replication.Common.{
  ◌≤ℤ◌, ◌≡◌, refl, inl, Bool, false, some, none, List, [], ◌∷◌, In, String,
}
use ai_video_replication.Store.{RuntimeJob}
use ai_video_replication.Jobs.Queue.{is_candidate, get_claimable_job}
use ai_video_replication.Jobs.Queue.Order.{get_claimable_job-first, get_claimable_job-covers}
use ai_video_replication.Tests.Scenario.{render_job, voice_job}

abbrev both : List RuntimeJob
both = render_job ∷ voice_job ∷ []

abbrev unlocked : RuntimeJob → Bool
unlocked j = false

get_claimable_job-first_example :
    (c : RuntimeJob) × (get_claimable_job unlocked (some "render") none [] both ≡ some c)
    × (render_job.priority ≤ℤ c.priority)
    × (c.priority ≤ℤ render_job.priority → c.created_at ≤ℤ render_job.created_at)
unfolding is_candidate
get_claimable_job-first_example =
    get_claimable_job-first unlocked (some "render") none both render_job (inl refl) refl

abbrev gpu_job : RuntimeJob
gpu_job = record voice_job { worker_capability_tags_json = "gpu" ∷ [] }

get_claimable_job-covers_example : In {A = String} "gpu" ("cpu" ∷ "gpu" ∷ [])
unfolding get_claimable_job
get_claimable_job-covers_example =
    get_claimable_job-covers unlocked none none "cpu" ("gpu" ∷ []) (render_job ∷ gpu_job ∷ [])
      gpu_job "gpu" refl (inl refl)
