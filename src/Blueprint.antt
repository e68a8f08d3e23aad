-- ===== src/Blueprint.antt =====
-- app/schemas/blueprint.py: a blueprint, after pydantic has checked its fields one by one. The fields
-- that neither its consistency check nor the compiler reads are left out.
pub mod Consistency
pub mod Compile
pub mod Bindings
use ai_video_replication.Common.{Option, List, String, ℤ}
use ai_video_replication.Common.Json.{Dict}

pub record ReferenceMapping : Type 0 where
  pub source_moments : List String
  pub preserved_elements : List String
  pub rewrite_axes : List String

pub record ReferenceBeat : Type 0 where
  pub beat_code : String
  pub sequence_code : String
  pub structural_function : String
  pub summary : String
  pub rewrite_notes : List String

pub record Reference : Type 0 where
  pub source_kind : String
  pub source_uri : Option String
  pub structural_goal : String
  pub retained_axes : List String
  pub swappable_axes : List String
  pub reference_beats : List ReferenceBeat
  pub notes : List String

pub record CompilePreferences : Type 0 where
  pub requested_runtime_version : Option String
  pub compile_reason : String
  pub compile_options : Dict

pub record GlobalConstraints : Type 0 where
  pub aspect_ratio : String
  pub target_duration_ms : Option ℤ
  pub style_tags : List String
  pub banned_elements : List String

pub record BlueprintSpu : Type 0 where
  pub spu_code : String
  pub display_name : String
  pub asset_role : String
  pub duration_ms : ℤ
  pub generation_mode : String
  pub prompt_text : Option String
  pub negative_prompt_text : Option String
  pub visual_constraints : Dict
  pub status : String
  pub reference_mapping : ReferenceMapping

pub record BlueprintVbu : Type 0 where
  pub vbu_code : String
  pub persuasive_role : String
  pub script_text : String
  pub voice_profile : Option String
  pub language : Option String
  pub duration_ms : Option ℤ
  pub tts_params : Dict
  pub status : String
  pub reference_mapping : ReferenceMapping

pub record BlueprintBridge : Type 0 where
  pub bridge_code : String
  pub bridge_type : String
  pub execution_order : ℤ
  pub spu_code : Option String
  pub vbu_code : Option String
  pub transition_policy : Dict
  pub status : String

pub record BlueprintSequence : Type 0 where
  pub sequence_code : String
  pub sequence_index : ℤ
  pub sequence_type : String
  pub persuasive_goal : Option String
  pub spus : List BlueprintSpu
  pub vbus : List BlueprintVbu
  pub bridges : List BlueprintBridge

pub record BlueprintV0 : Type 0 where
  pub blueprint_version : String
  pub blueprint_id : String
  pub source_language : String
  pub reference : Reference
  pub global_constraints : GlobalConstraints
  pub compile_preferences : CompilePreferences
  pub sequences : List BlueprintSequence
