-- ===== src/Executors/Durations.antt =====
-- The durations that are asked of the video model.
use ai_video_replication.Common.{ℕ, ◌≡◌, ◌≤◌, ◌⊎◌, refl, arith, Option, none, some, ℤ, pos_part}
use ai_video_replication.Common.Json.{Json}
use ai_video_replication.Executors.Values.{
  distance, coerce_positive_int, supported_duration, normalize_video_duration_seconds,
}

-- One of 4, 6 and 8, and none of the three is nearer, or as near and larger.
pub record Nearest (d n : ℕ) : Type 0 where
  pub supported : (n ≡ 4) ⊎ (n ≡ 6) ⊎ (n ≡ 8)
  pub near : (m : ℕ) → (m ≡ 4) ⊎ (m ≡ 6) ⊎ (m ≡ 8) → distance n d ≤ distance m d
  pub tie : (m : ℕ) → (m ≡ 4) ⊎ (m ≡ 6) ⊎ (m ≡ 8) → distance n d ≡ distance m d → m ≤ n

supported_duration-Nearest : (d : ℕ) → Nearest d (supported_duration d)
supported_duration-Nearest d = record {
  supported = ground arith;
  near = λ m h. ground arith;
  tie = λ m h e. ground arith;
}

-- The duration asked of the video model is 4, 6 or 8 seconds: the one nearest to the duration wanted,
-- and of two that are as near the longer.
pub normalize_video_duration_seconds-Nearest :
    (value : Option Json) (d : ℤ)
    → coerce_positive_int value none ≡ some d
    → (n : ℕ) × (normalize_video_duration_seconds value ≡ some n) × Nearest (pos_part d) n
unfolding normalize_video_duration_seconds
normalize_video_duration_seconds-Nearest value d e = (
  supported_duration (pos_part d),
  rw (e, normalize_video_duration_seconds) refl,
  supported_duration-Nearest (pos_part d),
)
