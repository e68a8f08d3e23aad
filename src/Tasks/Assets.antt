-- ===== src/Tasks/Assets.antt =====
-- app/workers/tasks.py: the row of a generated asset, which is registered when a job has run and
-- again when it has failed.
use ai_video_replication.Common.{
  Bool, true, ◌&&◌, Option, none, some, String, ◌==◌, leb_ℤ, any, select, or_option,
}
use ai_video_replication.Common.Json.{Json, null, str, Dict, empty, entry, get, merge, coerce_dict}
use ai_video_replication.Common.Values.{given_json}
use ai_video_replication.Common.Text.{Text, is_text}
use ai_video_replication.Aggregate.{Job}
use ai_video_replication.Assets.{resolve_bucket, build_runtime_asset_object_key}
use ai_video_replication.Projects.{Project, Sequence, Asset, Database, order_by, first}
use ai_video_replication.Projects.Session.{value_error, Outcome, returned, raised, and_then, need}
use ai_video_replication.Tasks.{ExecutionResult, Surroundings}

abbrev pub asset_notes : String
asset_notes = "sixth_batch_materialization_backbone"

abbrev pub selected_by : Dict → Option Json
selected_by d = given_json (get "sequence_id" d)

abbrev pub provider_payload_of : Option ExecutionResult → Option Json
provider_payload_of none = none
provider_payload_of (some r) = r.provider_payload

-- The first id that the three `if`s of `_resolve_asset_sequence_id` meet.
abbrev pub selected_sequence : Job → Option ExecutionResult → Option Json
selected_sequence job execution_result =
    let selection =
      coerce_dict (get "selection" (coerce_dict (provider_payload_of execution_result))) in
    let selector = coerce_dict (get "sequence_selector" job.payload) in
    or_option (selected_by selection) (or_option (selected_by selector) (selected_by job.payload))

-- `UUID(...)` on a text that is no id
abbrev pub bad_uuid : {A : Type 0} → Outcome A
bad_uuid = raised (value_error "badly formed hexadecimal UUID string")

abbrev pub row_metadata : String → Job → Dict
row_metadata runtime_version job = entry "runtime_version" (str runtime_version) (
    entry "job_id" (str job.id) (
      entry "job_type" (str job.job_type) (
        entry "external_task_id" (elim job.external_task_id [ none ↦ null | some t ↦ str t ])
          (entry "generated_by" (str "worker_provider_executor") empty))))

abbrev pub by_index : Sequence → Sequence → Bool
by_index a b = leb_ℤ a.sequence_index b.sequence_index

abbrev pub stored_at : String → Text → Asset → Bool
stored_at bucket_name object_key a = a.bucket_name == bucket_name && is_text a.object_key object_key

abbrev pub is_asset : String → Asset → Bool
is_asset id a = a.id == id

-- The file that a run of a task is about.
pub record Target : Type 0 where
  pub project_id : String
  pub sequence_id : Option String
  pub bucket_name : String
  pub object_key : Text

-- The foreign keys of a row of assets, `projects.id` and `sequences.id`.
abbrev pub is_sequence : String → Sequence → Bool
is_sequence id s = s.id == id

abbrev pub is_project : String → Project → Bool
is_project id p = p.id == id

abbrev pub sequence_exists : Database → Option String → Bool
sequence_exists db none = true
sequence_exists db (some id) = any (is_sequence id) db.sequences

unfoldable pub references_exist : Database → Target → Bool
references_exist db t =
    any (is_project t.project_id) db.projects && sequence_exists db t.sequence_id

module _ {S : Type 0} (env : Surroundings S) where
  unfoldable pub first_sequence_id : Database → String → Outcome (Option String)
  first_sequence_id db project_id = elim (env.uuid (str project_id)) [
    | none ↦ bad_uuid
    | some id ↦
        returned (elim (first (order_by by_index (select (λ s. s.project_id == id) db.sequences))) [
          | none ↦ none
          | some s ↦ some s.id
        ])
  ]

  unfoldable pub resolve_asset_sequence_id :
      Database → String → Job → Option ExecutionResult → Outcome (Option String)
  unfolding first_sequence_id
  resolve_asset_sequence_id db project_id job execution_result =
      elim (selected_sequence job execution_result) [
        | none ↦ first_sequence_id db project_id
        | some v ↦ elim (env.uuid v) [ none ↦ bad_uuid | some id ↦ returned (some id) ]
      ]

  -- `_runtime_asset_object_key` and the bucket
  unfoldable pub target_of :
      Database → String → String → Job → Option ExecutionResult → String → String → Outcome Target
  unfolding resolve_asset_sequence_id
  target_of db project_id runtime_version job execution_result asset_type filename =
      and_then
        (need (env.uuid (str project_id)) (value_error "badly formed hexadecimal UUID string"))
        λ id. and_then (resolve_asset_sequence_id db project_id job execution_result) λ sequence_id.
          returned record {
            project_id = id;
            sequence_id = sequence_id;
            bucket_name = resolve_bucket env.bucket_map asset_type;
            object_key =
                build_runtime_asset_object_key id runtime_version job.job_type (some filename)
                  sequence_id;
          }

  -- The writes on an asset whose place is known already.
  abbrev pub registered_again :
      Target → Dict → String → String → String → String → String → Asset → Asset
  registered_again t metadata asset_type asset_role filename content_type status a = record a {
    project_id = t.project_id;
    sequence_id = t.sequence_id;
    asset_type = asset_type;
    asset_role = asset_role;
    source_filename = some filename;
    content_type = some content_type;
    asset_metadata = merge a.asset_metadata metadata;
    status = status;
    notes = some asset_notes;
  }

  abbrev pub new_asset : Target → Dict → String → String → String → String → String → Asset
  new_asset t metadata asset_type asset_role filename content_type status = record {
    id = env.asset_id;
    project_id = t.project_id;
    sequence_id = t.sequence_id;
    asset_type = asset_type;
    asset_role = asset_role;
    bucket_name = t.bucket_name;
    object_key = t.object_key;
    source_filename = some filename;
    content_type = some content_type;
    file_size = none;
    asset_metadata = metadata;
    status = status;
    notes = some asset_notes;
    created_at = env.asset_created_at;
  }
