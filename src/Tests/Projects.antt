-- ===== src/Tests/Projects.antt =====
-- A project's parts and its assets.
use ai_video_replication.Common.Json.{empty}
use ai_video_replication.Common.{
  ◌≡◌, refl, true, false, not, ◌&&◌, none, pos, some, List, [], ◌∷◌, all, count,
}
use ai_video_replication.Projects.{Sequence, Spu, Bridge}
use ai_video_replication.Validation.{Validation, is_empty, is_sequence, dangling, validate}
use ai_video_replication.Validation.Bindings.{validate-is_valid}
use ai_video_replication.Assets.{
  safe_name, build_project_asset_object_key, build_runtime_asset_object_key,
}
use ai_video_replication.Assets.Keys.{is_slash, is_blank, safe_name-flat, build_object_key-depth}

abbrev opening : List Sequence
opening =
    record {
      id = "s1";
      project_id = "p";
      sequence_index = pos 0;
      sequence_type = "hook";
      persuasive_goal = none;
      status = "draft";
      created_at = pos 0;
    }
    ∷ []

abbrev spus : List Spu
spus =
    record {
      id = "u1";
      project_id = "p";
      sequence_id = some "s1";
      spu_code = "spu-1";
      display_name = "A bottle";
      asset_role = "primary_visual";
      duration_ms = pos 5000;
      generation_mode = "veo_segment";
      prompt_text = some "A bottle on a table";
      negative_prompt_text = none;
      visual_constraints = empty;
      status = "draft";
      created_at = pos 0;
    }
    ∷ []

abbrev bridges : List Bridge
bridges =
    record {
      id = "b1";
      project_id = "p";
      sequence_id = "s2";
      spu_id = none;
      vbu_id = none;
      bridge_code = "b-1";
      bridge_type = "sequence_unit_binding";
      execution_order = pos 0;
      transition_policy = empty;
      status = "draft";
      created_at = pos 0;
    }
    ∷ []

-- The bridge names a sequence that is not there.
not_valid : Validation.is_valid (validate "p" opening spus [] bridges) ≡ false
unfolding validate
not_valid = refl

validate-is_valid_example : Validation.is_valid (validate "p" opening spus [] bridges) ≡ (
    not (is_empty opening)
    && (not (is_empty spus)
        && (all (λ x. not (dangling opening x.sequence_id)) spus
            && (true && all (λ x. is_sequence opening x.sequence_id) bridges))))
validate-is_valid_example = validate-is_valid "p" opening spus [] bridges

safe_name-flat_example :
    (count is_slash (safe_name (some "../secret/my clip.mp4")) ≡ 0)
    × (count is_blank (safe_name (some "../secret/my clip.mp4")) ≡ 0)
safe_name-flat_example = safe_name-flat (some "../secret/my clip.mp4")

build_object_key-depth_example :
    (count is_slash
        (build_runtime_asset_object_key "p" "v1" "render_video" (some "a/b/c.mp4") (some "s1"))
      ≡ count is_slash
          (build_runtime_asset_object_key "p" "v1" "render_video" (some "c.mp4") (some "s1")))
    × (count is_slash
          (build_project_asset_object_key "p" "audio" "voice" (some "a/b/c.mp4") (some "s1"))
        ≡ count is_slash
            (build_project_asset_object_key "p" "audio" "voice" (some "c.mp4") (some "s1")))
build_object_key-depth_example =
    build_object_key-depth "p" "v1" "render_video" "audio" "voice" (some "s1") (some "a/b/c.mp4")
      (some "c.mp4")
