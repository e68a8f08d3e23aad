-- ===== src/Projects.antt =====
-- The tables of app/db/models that the compiler, the tasks and the asset service share: projects and
-- their parts, assets, and the database that holds them beside the jobs and the compiled runtimes of
-- app/services/runtime_state_service.py. Ids are texts. A project's `status` and `updated_at`, which
-- no code reads, are left out.
pub mod Session
use ai_video_replication.Common.{Bool, Option, none, some, List, [], ◌∷◌, String, ℤ, if◌then◌else◌}
use ai_video_replication.Common.Json.{Dict}
use ai_video_replication.Common.Text.{Text}
use ai_video_replication.Store.{Time}
use ai_video_replication.Aggregate.{Job, CompiledRuntime}

pub record Project : Type 0 where
  pub id : String
  pub name : String
  pub source_market : String
  pub source_language : String
  pub notes : Option String
  pub created_at : Time

pub record Sequence : Type 0 where
  pub id : String
  pub project_id : String
  pub sequence_index : ℤ
  pub sequence_type : String
  pub persuasive_goal : Option String
  pub status : String
  pub created_at : Time

pub record Spu : Type 0 where
  pub id : String
  pub project_id : String
  pub sequence_id : Option String
  pub spu_code : String
  pub display_name : String
  pub asset_role : String
  pub duration_ms : ℤ
  pub generation_mode : String
  pub prompt_text : Option String
  pub negative_prompt_text : Option String
  pub visual_constraints : Dict
  pub status : String
  pub created_at : Time

pub record Vbu : Type 0 where
  pub id : String
  pub project_id : String
  pub sequence_id : Option String
  pub vbu_code : String
  pub persuasive_role : String
  pub script_text : String
  pub voice_profile : Option String
  pub language : String
  pub duration_ms : Option ℤ
  pub tts_params : Dict
  pub status : String
  pub created_at : Time

pub record Bridge : Type 0 where
  pub id : String
  pub project_id : String
  pub sequence_id : String
  pub spu_id : Option String
  pub vbu_id : Option String
  pub bridge_code : String
  pub bridge_type : String
  pub execution_order : ℤ
  pub transition_policy : Dict
  pub status : String
  pub created_at : Time

pub record Asset : Type 0 where
  pub id : String
  pub project_id : String
  pub sequence_id : Option String
  pub asset_type : String
  pub asset_role : String
  pub bucket_name : String
  pub object_key : Text
  pub source_filename : Option String
  pub content_type : Option String
  pub file_size : Option ℤ
  pub asset_metadata : Dict
  pub status : String
  pub notes : Option String
  pub created_at : Time

pub record Database : Type 0 where
  pub projects : List Project
  pub sequences : List Sequence
  pub spus : List Spu
  pub vbus : List Vbu
  pub bridges : List Bridge
  pub runtimes : List CompiledRuntime
  pub jobs : List Job
  pub assets : List Asset

module _ {A : Type 0} (before : A → A → Bool) where
  -- `order_by(...)`: a row goes in front of the first that it does not come after.
  abbrev pub insert_row : A → List A → List A
  insert_row a [] = a ∷ []
  insert_row a (b ∷ bs) = if before a b then a ∷ b ∷ bs else b ∷ insert_row a bs

  abbrev pub order_by : List A → List A
  order_by [] = []
  order_by (a ∷ rows) = insert_row a (order_by rows)

-- `.first()`
abbrev pub first : {A : Type 0} → List A → Option A
first [] = none
first (a ∷ _) = some a
