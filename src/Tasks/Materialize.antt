-- ===== src/Tasks/Materialize.antt =====
-- app/workers/tasks.py: `_register_generated_asset` and `_materialize_generated_asset`.
use ai_video_replication.Common.{
  if◌then◌else◌, Option, none, some, List, [], ◌∷◌, ◌++◌, String, ◌==◌, ℤ, find, update_where,
  or_text, or_str, Bool, ◌&&◌, leb, length,
}
use ai_video_replication.Common.Json.{Json, null, str, Dict, empty, entry, merge}
use ai_video_replication.Common.Text.{Text}
use ai_video_replication.Aggregate.{Job}
use ai_video_replication.Projects.{Asset}
use ai_video_replication.Projects.Session.{failure, Outcome, returned, raised, M, ◌>>=◌, lift}
use ai_video_replication.Tasks.{ExecutionResult, AssetPlan, World, Surroundings}
use ai_video_replication.Tasks.Content.{resolve_asset_content_type, resolve_materialization_payload}
use ai_video_replication.Tasks.Storage.{
  MaterializedObject, object_exists, stat_artifact, materialize_bytes,
}
use ai_video_replication.Store.{text_fits, opt_text_fits}
use ai_video_replication.Tasks.Assets.{
  references_exist, stored_at, is_asset, row_metadata, Target, target_of, registered_again,
  new_asset,
}

-- The dict `materialization`.
pub record Materialization : Type 0 where
  pub bucket_name : String
  pub object_key : Text
  pub idempotency : String
  pub status : String
  pub etag : Option String
  pub version_id : Option String
  pub size : Option ℤ

-- What `asset_type`, `asset_role`, `filename`, `content_type` and `status` are in a registration.
pub record Registration : Type 0 where
  pub asset_type : String
  pub asset_role : String
  pub filename : String
  pub content_type : String
  pub status : String

-- The lengths of the columns of assets that a registration writes
unfoldable pub registration_fits : Target → Registration → Bool
registration_fits t g =
    text_fits 50 g.asset_type
    && (text_fits 50 g.asset_role
        && (text_fits 100 t.bucket_name
            && (leb (length t.object_key) 512
                && (text_fits 255 g.filename
                    && (text_fits 100 g.content_type && text_fits 50 g.status)))))

-- What the database raises at a flush: DataError, and IntegrityError.
abbrev pub value_too_long : {A : Type 0} → Outcome A
value_too_long = raised (failure "value too long for type character varying")

abbrev pub foreign_key_violation : {A : Type 0} → Outcome A
foreign_key_violation =
    raised (failure "insert or update on table \"assets\" violates foreign key constraint")

abbrev pub opt_json : Option String → Json
opt_json none = null
opt_json (some t) = str t

abbrev pub stored_metadata : String → Option MaterializedObject → Dict
stored_metadata status none =
    entry "materialization_status" (str status)
      (entry "materialized_etag" null (entry "materialized_version_id" null empty))
stored_metadata status (some o) = entry "materialization_status" (str status) (
    entry "materialized_etag" (opt_json o.etag)
      (entry "materialized_version_id" (opt_json o.version_id) empty))

abbrev pub etag_of : Option MaterializedObject → Option String
etag_of none = none
etag_of (some o) = o.etag

abbrev pub version_of : Option MaterializedObject → Option String
version_of none = none
version_of (some o) = o.version_id

abbrev pub size_of : Option MaterializedObject → Option ℤ → Option ℤ
size_of none size = size
size_of (some o) size = o.size

abbrev pub type_of : Option MaterializedObject → Option String → Option String
type_of none content_type = content_type
type_of (some o) content_type = or_text o.content_type content_type

-- The asset and the answer where the object is in the store already.
abbrev pub reconciled : Option MaterializedObject → Asset → Asset
reconciled existing a = record a {
  status = "materialized";
  file_size = size_of existing a.file_size;
  content_type = type_of existing a.content_type;
  asset_metadata = merge a.asset_metadata (stored_metadata "reconciled_from_object_store" existing);
}

abbrev pub short_circuit : Option MaterializedObject → Asset → Materialization
short_circuit existing a = record {
  bucket_name = a.bucket_name;
  object_key = a.object_key;
  idempotency = "object_store_short_circuit";
  status = "materialized";
  etag = etag_of existing;
  version_id = version_of existing;
  size = size_of existing (reconciled existing a).file_size;
}

-- The same where the asset says so itself, as a row that was materialized before would.
abbrev pub confirmed : Option MaterializedObject → Asset → Asset
confirmed none a = a
confirmed (some o) a = record a {
  file_size = o.size;
  content_type = or_text o.content_type a.content_type;
  asset_metadata = merge a.asset_metadata (stored_metadata "already_present" (some o));
}

abbrev pub already_materialized : Option MaterializedObject → Asset → Materialization
already_materialized existing a = record {
  bucket_name = a.bucket_name;
  object_key = a.object_key;
  idempotency = "asset_already_materialized";
  status = "materialized";
  etag = etag_of existing;
  version_id = version_of existing;
  size = size_of existing a.file_size;
}

abbrev pub uploaded : MaterializedObject → Asset → Asset
uploaded stored a = record a {
  status = "materialized";
  file_size = stored.size;
  content_type = or_text stored.content_type a.content_type;
  asset_metadata = merge a.asset_metadata (stored_metadata "uploaded_by_worker" (some stored));
}

abbrev pub fresh_write : MaterializedObject → Asset → Materialization
fresh_write stored a = record {
  bucket_name = a.bucket_name;
  object_key = a.object_key;
  idempotency = "fresh_write";
  status = "materialized";
  etag = stored.etag;
  version_id = stored.version_id;
  size = stored.size;
}

module _ {S : Type 0} where
  abbrev pub with_assets : List Asset → World S → World S
  with_assets assets w = record w { db = record w.db { assets = assets } }

  -- A flush of the changed row.
  abbrev pub write_asset : Asset → World S → World S
  write_asset a w = with_assets (update_where (is_asset a.id) (λ _. a) w.db.assets) w

  abbrev pub written : {B : Type 0} → Asset → B → M (World S) (Asset × B)
  written a b w =
      if opt_text_fits 100 a.content_type
      then (returned (a, b), write_asset a w)
      else (value_too_long, w)

module _ {S : Type 0} (env : Surroundings S) where
  abbrev pub add_or_update : Target → Dict → Registration → M (World S) Asset
  add_or_update t metadata g w = elim (find (stored_at t.bucket_name t.object_key) w.db.assets) [
    | some found ↦
        let a =
          registered_again env t metadata g.asset_type g.asset_role g.filename g.content_type
            g.status found in
        (returned a, write_asset a w)
    | none ↦
        let a =
          new_asset env t metadata g.asset_type g.asset_role g.filename g.content_type g.status in
        (returned a, with_assets (w.db.assets ++ (a ∷ [])) w)
  ]

  -- The part of `_register_generated_asset` that follows the resolution of the place, up to the flush.
  abbrev pub register_at : Target → Dict → Registration → M (World S) Asset
  register_at t metadata g w =
      if registration_fits t g
      then (if references_exist w.db t
          then add_or_update t metadata g w
          else (foreign_key_violation, w))
      else (value_too_long, w)

  abbrev pub place :
      String → String → Job → Option ExecutionResult → Registration → M (World S) Target
  place project_id runtime_version job execution_result g w = (
    target_of env w.db project_id runtime_version job execution_result g.asset_type g.filename,
    w,
  )

  unfoldable pub register_generated_asset :
      String → String → Job → Option ExecutionResult → Registration → M (World S) Asset
  register_generated_asset project_id runtime_version job execution_result g =
      place project_id runtime_version job execution_result g >>= λ t.
      register_at t (row_metadata runtime_version job) g

  abbrev pub reading : {B : Type 0} → (S → Outcome B) → M (World S) B
  reading q w = (q w.objects, w)

  abbrev pub upload :
      ExecutionResult → AssetPlan → String → Asset → M (World S) (Asset × Materialization)
  upload r asset_plan resolved_content_type a =
      lift (resolve_materialization_payload r asset_plan) >>= λ payload.
      materialize_bytes env a.bucket_name a.object_key payload
        (or_str a.content_type resolved_content_type)
      >>= λ stored. written (uploaded stored a) (fresh_write stored a)

  abbrev pub reconcile_or_upload :
      ExecutionResult → AssetPlan → String → Asset → M (World S) (Asset × Materialization)
  reconcile_or_upload r asset_plan resolved_content_type a =
      reading (object_exists env a.bucket_name a.object_key) >>= λ exists.
      if exists
      then (reading (stat_artifact env a.bucket_name a.object_key) >>= λ existing.
          written (reconciled existing a) (short_circuit existing a))
      else upload r asset_plan resolved_content_type a

  -- What follows the registration.
  abbrev pub store_asset :
      ExecutionResult → AssetPlan → String → Asset → M (World S) (Asset × Materialization)
  store_asset r asset_plan resolved_content_type a =
      if a.status == "materialized"
      then (reading (object_exists env a.bucket_name a.object_key) >>= λ exists.
          if exists
          then (reading (stat_artifact env a.bucket_name a.object_key) >>= λ existing.
              written (confirmed existing a) (already_materialized existing (confirmed existing a)))
          else reconcile_or_upload r asset_plan resolved_content_type a)
      else reconcile_or_upload r asset_plan resolved_content_type a

  abbrev pub asset_registration : ExecutionResult → AssetPlan → Registration
  asset_registration r asset_plan = record {
    asset_type = asset_plan.asset_type;
    asset_role = asset_plan.asset_role;
    filename = or_str r.output_filename asset_plan.filename;
    content_type = resolve_asset_content_type r asset_plan;
    status = "registered";
  }

  unfoldable pub materialize_generated_asset :
      String → String → Job → AssetPlan → ExecutionResult → M (World S) (Asset × Materialization)
  materialize_generated_asset project_id runtime_version job asset_plan r =
      register_generated_asset project_id runtime_version job (some r)
        (asset_registration r asset_plan)
      >>= store_asset r asset_plan (resolve_asset_content_type r asset_plan)
