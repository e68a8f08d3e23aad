-- ===== src/Tests/Blueprints.antt =====
-- A blueprint of one sequence, whose bridge binds its SPU.
use ai_video_replication.Common.{◌≡◌, refl, none, some, [], ◌∷◌, String, pos, All}
use ai_video_replication.Common.Json.{str, empty, get}
use ai_video_replication.Projects.Session.{raised, value_error}
use ai_video_replication.Blueprint.{
  ReferenceMapping, BlueprintSpu, BlueprintBridge, BlueprintSequence, BlueprintV0,
}
use ai_video_replication.Blueprint.Consistency.{
  check_bridges, check_sequence, check_sequences, check_beats, validate_consistency,
}
use ai_video_replication.Blueprint.Compile.{compile_bridge}
use ai_video_replication.Blueprint.Bindings.{Resolved, validate_consistency-Resolved}

abbrev unmapped : ReferenceMapping
unmapped = record { source_moments = []; preserved_elements = []; rewrite_axes = [] }

abbrev bottle : BlueprintSpu
bottle = record {
  spu_code = "bottle";
  display_name = "Bottle";
  asset_role = "primary_visual";
  duration_ms = pos 5000;
  generation_mode = "veo_segment";
  prompt_text = none;
  negative_prompt_text = none;
  visual_constraints = empty;
  status = "draft";
  reference_mapping = unmapped;
}

abbrev binding : String → BlueprintBridge
binding spu_code = record {
  bridge_code = "first";
  bridge_type = "sequence_unit_binding";
  execution_order = pos 0;
  spu_code = some spu_code;
  vbu_code = none;
  transition_policy = empty;
  status = "draft";
}

abbrev hook : String → BlueprintSequence
hook spu_code = record {
  sequence_code = "hook";
  sequence_index = pos 0;
  sequence_type = "hook";
  persuasive_goal = none;
  spus = bottle ∷ [];
  vbus = [];
  bridges = binding spu_code ∷ [];
}

abbrev spot : String → BlueprintV0
spot spu_code = record {
  blueprint_version = "blueprint.v0";
  blueprint_id = "spot";
  source_language = "en-US";
  reference = record {
    source_kind = "manual_notes";
    source_uri = none;
    structural_goal = "sell";
    retained_axes = [];
    swappable_axes = [];
    reference_beats = [];
    notes = [];
  };
  global_constraints = record {
    aspect_ratio = "9:16";
    target_duration_ms = none;
    style_tags = [];
    banned_elements = [];
  };
  compile_preferences = record {
    requested_runtime_version = none;
    compile_reason = "blueprint_stub";
    compile_options = empty;
  };
  sequences = hook spu_code ∷ [];
}

abbrev named : String → String
named s = s

validate_consistency-Resolved_example :
    All (λ s. All (Resolved named (spot "bottle") s) s.bridges) (spot "bottle").sequences
validate_consistency-Resolved_example =
    validate_consistency-Resolved named (spot "bottle")
      (unfold validate_consistency check_sequences check_sequence check_bridges check_beats in refl)

bound_id_of_bottle :
    get "spu_id" (compile_bridge named (spot "bottle") (hook "bottle") (binding "bottle"))
    ≡ some (str "spu::spot::hook::bottle")
unfolding compile_bridge get
bound_id_of_bottle = refl

unknown_unit :
    validate_consistency (spot "cap") ≡ raised (value_error "bridge_spu_missing:first:cap")
unfolding validate_consistency check_sequences check_sequence check_bridges
unknown_unit = refl
