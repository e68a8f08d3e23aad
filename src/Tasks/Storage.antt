-- ===== src/Tasks/Storage.antt =====
-- app/services/storage_service.py and app/services/runtime_artifact_service.py over minio's client,
-- as far as the tasks use them.
use ai_video_replication.Common.{
  Bool, true, false, ◌||◌, if◌then◌else◌, Option, none, some, String, option_is, ℤ, pos, length,
}
use ai_video_replication.Common.Text.{Text}
use ai_video_replication.Projects.Session.{
  Exn, provider_error, value_error, s3_error, failure, Outcome, returned, raised, and_then, M,
}
use ai_video_replication.Tasks.{Bytes, Stat, Written, World, Surroundings}

pub record MaterializedObject : Type 0 where
  pub bucket_name : String
  pub object_key : Text
  pub etag : Option String
  pub version_id : Option String
  pub size : Option ℤ
  pub content_type : Option String

abbrev pub is_missing_code : Option String → Bool
is_missing_code code =
    option_is code "NoSuchKey" || (option_is code "NoSuchObject" || option_is code "NoSuchBucket")

abbrev pub is_missing : Exn → Bool
is_missing (s3_error code message shown) = is_missing_code code
is_missing (provider_error code message) = false
is_missing (value_error shown) = false
is_missing (failure shown) = false

abbrev pub is_some : {A : Type 0} → Option A → Bool
is_some none = false
is_some (some _) = true

module _ {S : Type 0} (env : Surroundings S) where
  -- `StorageService.stat_object`
  unfoldable pub stored_stat : String → Text → S → Outcome (Option Stat)
  stored_stat bucket_name object_key objects =
      elim (env.stat_object bucket_name object_key objects) [
        | returned stat ↦ returned (some stat)
        | raised e ↦ if is_missing e then returned none else raised e
      ]

  unfoldable pub object_exists : String → Text → S → Outcome Bool
  unfolding stored_stat
  object_exists bucket_name object_key objects =
      and_then (stored_stat bucket_name object_key objects) λ stat. returned (is_some stat)

  -- `RuntimeArtifactService.stat_object`
  unfoldable pub stat_artifact : String → Text → S → Outcome (Option MaterializedObject)
  unfolding stored_stat
  stat_artifact bucket_name object_key objects =
      and_then (stored_stat bucket_name object_key objects) λ found. returned (elim found [
        | none ↦ none
        | some stat ↦ some record {
          bucket_name = bucket_name;
          object_key = object_key;
          etag = stat.etag;
          version_id = stat.version_id;
          size = stat.size;
          content_type = stat.content_type;
        }
      ])

  unfoldable pub materialize_bytes : String → Text → Bytes → String → M (World S) MaterializedObject
  materialize_bytes bucket_name object_key payload content_type w =
      let (written, objects) =
        env.put_object bucket_name object_key payload content_type w.objects in
      (
        and_then written λ (result : Written). returned record {
          bucket_name = bucket_name;
          object_key = object_key;
          etag = result.etag;
          version_id = result.version_id;
          size = some (pos (length payload));
          content_type = some content_type;
        },
        record w { objects = objects },
      )
