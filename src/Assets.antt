-- ===== src/Assets.antt =====
-- app/services/asset_policy_service.py and the buckets of app/services/storage_service.py: where an
-- asset is kept. Ids are texts, the bucket names come from the settings, and `Path(x).name` is the last
-- component of a POSIX path.
pub mod Keys
use ai_video_replication.Common.{
  ℕ, nat_eq, Bool, true, false, not, ◌||◌, if◌then◌else◌, Option, none, some, List, [], ◌∷◌, ◌++◌,
  String, ◌==◌, map, truthy,
}
use ai_video_replication.Common.Text.{Text, codes}

-- `StorageService.bucket_map()`
pub record Buckets : Type 0 where
  pub reference : String
  pub generated_images : String
  pub generated_videos : String
  pub audio : String
  pub exports : String
  pub runtime : String

unfoldable pub resolve_bucket : Buckets → String → String
resolve_bucket bucket_map asset_type =
    if asset_type == "reference_video" || asset_type == "reference_image"
    then bucket_map.reference
    else if asset_type == "generated_image"
    then bucket_map.generated_images
    else if asset_type == "generated_video"
    then bucket_map.generated_videos
    else if asset_type == "audio"
    then bucket_map.audio
    else if asset_type == "runtime"
    then bucket_map.runtime
    else if asset_type == "export"
    then bucket_map.exports
    else bucket_map.reference

abbrev pub slash : ℕ
slash = b'/'

abbrev pub onto_first : ℕ → List Text → List Text
onto_first c [] = (c ∷ []) ∷ []
onto_first c (part ∷ rest) = (c ∷ part) ∷ rest

abbrev pub parts : Text → List Text
parts [] = [] ∷ []
parts (c ∷ t) = if nat_eq c slash then [] ∷ parts t else onto_first c (parts t)

-- A path drops its empty components and those that are a dot.
abbrev pub is_component : Text → Bool
is_component [] = false
is_component (c ∷ []) = not (nat_eq c b'.')
is_component (c ∷ d ∷ t) = true

abbrev pub last_component : List Text → Text → Text
last_component [] found = found
last_component (part ∷ rest) found =
    if is_component part then last_component rest part else last_component rest found

abbrev pub path_name : Text → Text
path_name t = last_component (parts t) []

abbrev pub underscored : ℕ → ℕ
underscored c = if nat_eq c b' ' then b'_' else c

unfoldable pub safe_name : Option String → Text
safe_name none = codes "asset.bin"
safe_name (some filename) =
    if truthy filename then map underscored (path_name (codes filename)) else codes "asset.bin"

abbrev pub sequence_scope : Option String → Text
sequence_scope none = codes "project"
sequence_scope (some sequence_id) = codes "sequences/" ++ codes sequence_id

unfoldable pub build_project_asset_object_key :
    String → String → String → Option String → Option String → Text
unfolding safe_name
build_project_asset_object_key project_id asset_type asset_role source_filename sequence_id =
    codes "projects/"
    ++ (codes project_id
        ++ (codes "/"
            ++ (sequence_scope sequence_id
                ++ (codes "/"
                    ++ (codes asset_type
                        ++ (codes "/"
                            ++ (codes asset_role ++ (codes "/" ++ safe_name source_filename))))))))

unfoldable pub build_runtime_asset_object_key :
    String → String → String → Option String → Option String → Text
unfolding safe_name
build_runtime_asset_object_key project_id runtime_version job_type filename none =
    codes "projects/"
    ++ (codes project_id
        ++ (codes "/runtime/"
            ++ (codes runtime_version
                ++ (codes "/" ++ (codes job_type ++ (codes "/" ++ safe_name filename))))))
build_runtime_asset_object_key project_id runtime_version job_type filename (some sequence_id) =
    codes "projects/"
    ++ (codes project_id
        ++ (codes "/runtime/"
            ++ (codes runtime_version
                ++ (codes "/"
                    ++ (codes "sequences/"
                        ++ (codes sequence_id
                            ++ (codes "/"
                                ++ (codes job_type ++ (codes "/" ++ safe_name filename)))))))))
