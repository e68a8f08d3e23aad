-- ===== src/Executors/Merge.antt =====
-- app/workers/executors.py: FailHardMergeExecutor, which waits for a video and a sound and muxes them.
-- `views` is what the database shows at each look.
use ai_video_replication.Common.{
  ℕ, zero, suc, Bool, false, ◌&&◌, if◌then◌else◌, Option, none, some, List, [], ◌∷◌, ◌++◌, String,
  ◌==◌, ℤ, pos, leb_ℤ, nat_eq, select, find, truthy,
}
use Prim.Native.Char.{code}
use ai_video_replication.Common.Json.{Json, str, obj, Dict, empty, entry, get}
use ai_video_replication.Common.Strings.{◌<>◌, strip, lower, startswith, or_blank, str_of}
use ai_video_replication.Common.Text.{Text}
use ai_video_replication.Aggregate.{Job}
use ai_video_replication.Projects.{Asset, Database, order_by}
use ai_video_replication.Projects.Session.{
  Exn, provider_error, Outcome, returned, raised, and_then, need,
}
use ai_video_replication.Tasks.{Bytes, bytes, ExecutionResult, Surroundings}
use ai_video_replication.Tasks.Assets.{bad_uuid}
use ai_video_replication.Tasks.Run.{Run}
use ai_video_replication.Executors.Selection.{load_runtime_payload}
use ai_video_replication.Executors.Google.{planned_filename, about_run}

-- A run of ffmpeg that ended: its code, its stripped stderr, and the file it wrote.
pub record Muxed : Type 0 where
  pub returncode : ℤ
  pub stderr : String
  pub output : Bytes

-- minio's `get_object`, the temporary directory, and a command on the two files in it.
pub record Tools (S : Type 0) : Type 0 where
  pub get_bytes : String → Text → S → Outcome Bytes
  pub temp_dir : String
  pub run_command : Bytes → Bytes → List String → Muxed

abbrev pub newest_first : Asset → Asset → Bool
newest_first a b = leb_ℤ b.created_at a.created_at

abbrev pub is_str : Option Json → String → Bool
is_str (some (str s)) t = s == t
is_str _ t = false

abbrev pub is_ready : String → Asset → Bool
is_ready runtime_version a =
    is_str (get "runtime_version" a.asset_metadata) runtime_version && a.status == "materialized"

abbrev pub of_type : String → String → Asset → Bool
of_type project_id asset_type a = a.project_id == project_id && a.asset_type == asset_type

unfoldable pub find_runtime_asset : String → String → String → Database → Option Asset
find_runtime_asset project_id runtime_version asset_type db =
    find (is_ready runtime_version)
      (order_by newest_first (select (of_type project_id asset_type) db.assets))

-- `for _ in range(_MAX_ASSET_WAITS + 1)`, with `n` looks left, at the `k`-th
unfoldable pub wait_from : (ℕ → Database) → String → String → String → ℕ → ℕ → Option Asset
wait_from views project_id runtime_version asset_type zero k = none
wait_from views project_id runtime_version asset_type (suc n) k =
    let rest = wait_from views project_id runtime_version asset_type n (suc k) in
    elim (find_runtime_asset project_id runtime_version asset_type (views k)) [
      | some a ↦ some a
      | none ↦ rest
    ]

abbrev pub wait_for_runtime_asset : (ℕ → Database) → String → String → String → Option Asset
wait_for_runtime_asset views project_id runtime_version asset_type =
    wait_from views project_id runtime_version asset_type 91 0

-- `s.split(c)` and the two sides of `s.partition(c)`
unfoldable pub before : ℕ → String → String
before c String.[] = String.[]
before c (String.◌∷◌ d s) =
    let rest = before c s in if nat_eq (code d) c then String.[] else String.◌∷◌ d rest

unfoldable pub after : ℕ → String → String
after c String.[] = String.[]
after c (String.◌∷◌ d s) = let rest = after c s in if nat_eq (code d) c then s else rest

abbrev pub onto_part : ℕ → String → List String → List String
onto_part c s [] = s ∷ []
onto_part c s (part ∷ parts) = s ∷ part ∷ parts

abbrev pub push_char : String → List String → List String
push_char s [] = s ∷ []
push_char s (part ∷ parts) = (s <> part) ∷ parts

unfoldable pub split_at : ℕ → String → List String
split_at c String.[] = "" ∷ []
split_at c (String.◌∷◌ d s) =
    let rest = split_at c s in
    if nat_eq (code d) c then "" ∷ rest else push_char (String.◌∷◌ d String.[]) rest

abbrev pub tail_of : List String → List String
tail_of [] = []
tail_of (s ∷ rest) = rest

-- The rate of the first segment that gives one.
unfoldable pub rate_of : List String → String
rate_of [] = "24000"
rate_of (segment ∷ rest) =
    let later = rate_of rest in
    if strip (before b'=' segment) == "rate" && truthy (strip (after b'=' segment))
    then strip (after b'=' segment)
    else later

unfoldable pub build_audio_input_args : Option String → String → List String
build_audio_input_args content_type audio_path =
    let normalized = lower (strip (or_blank content_type)) in
    if startswith normalized "audio/l16"
    then "-f"
      ∷ "s16le"
      ∷ "-ar"
      ∷ rate_of (tail_of (split_at b';' normalized))
      ∷ "-ac"
      ∷ "1"
      ∷ "-i"
      ∷ audio_path
      ∷ []
    else "-i" ∷ audio_path ∷ []

abbrev pub mux_command : String → List String → List String
mux_command temp_dir audio_input_args =
    ("ffmpeg" ∷ "-y" ∷ "-i" ∷ (temp_dir <> "/input_video.mp4") ∷ [])
    ++ (audio_input_args
        ++ ("-map"
            ∷ "0:v:0"
            ∷ "-map"
            ∷ "1:a:0"
            ∷ "-c:v"
            ∷ "copy"
            ∷ "-c:a"
            ∷ "aac"
            ∷ "-shortest"
            ∷ (temp_dir <> "/output.mp4")
            ∷ []))

abbrev pub ffmpeg_failed : String → Exn
ffmpeg_failed stderr =
    provider_error "merge_ffmpeg_failed"
      ("merge.runtime ffmpeg mux failed: " <> (if truthy stderr then stderr else "<empty stderr>"))

abbrev pub muxed_bytes : Bytes → Outcome Bytes
muxed_bytes [] =
    raised (provider_error "merge_output_empty" "merge.runtime produced an empty MP4 output.")
muxed_bytes (b ∷ bs) = returned (b ∷ bs)

abbrev pub is_zero : ℤ → Bool
is_zero n = if leb_ℤ n (pos 0) then leb_ℤ (pos 0) n else false

abbrev pub mux_result : Muxed → Outcome Bytes
mux_result m =
    if is_zero m.returncode then muxed_bytes m.output else raised (ffmpeg_failed m.stderr)

abbrev pub asset_ref : Asset → Dict
asset_ref a = entry "asset_id" (str a.id) (
    entry "bucket_name" (str a.bucket_name) (
      entry "object_key" (str (str_of a.object_key))
        (entry "asset_type" (str a.asset_type) (entry "status" (str a.status) empty))))

abbrev pub asset_missing : String → String → String → Exn
asset_missing code kind runtime_version = provider_error code (
    "merge.runtime could not find " <> kind <> " asset for runtime_version=" <> runtime_version
    <> ".")

abbrev pub merged : Job → Run → Asset → Asset → Bytes → ExecutionResult
merged job run video audio content = record {
  status = some "succeeded";
  provider = some "merge_ffmpeg";
  output_filename = planned_filename run.asset_plan;
  provider_payload = some (
      obj (
        about_run job run "merge_ffmpeg" (
          entry "video_asset" (obj (asset_ref video))
            (entry "audio_asset" (obj (asset_ref audio)) empty))));
  binary_payload = some (bytes content);
  text_payload = none;
  content_type = some "video/mp4";
}

module _ {S : Type 0} (env : Surroundings S) (tools : Tools S) where
  unfoldable pub mux_video_and_audio : Bytes → Bytes → Option String → Outcome Bytes
  mux_video_and_audio video_bytes audio_bytes audio_content_type = mux_result (
      tools.run_command video_bytes audio_bytes (
        mux_command tools.temp_dir
          (build_audio_input_args audio_content_type (tools.temp_dir <> "/input_audio.bin"))))

  -- The merge of the two files.
  abbrev pub merge_assets : S → Job → Run → Asset → Asset → Outcome ExecutionResult
  merge_assets objects job run video audio =
      and_then (tools.get_bytes video.bucket_name video.object_key objects) λ v.
        and_then (tools.get_bytes audio.bucket_name audio.object_key objects) λ a.
          and_then (mux_video_and_audio v a audio.content_type)
            λ content. returned (merged job run video audio content)

  -- The sound is looked for once the wait for the video has ended: its looks begin at `later`.
  unfoldable pub execute_merge :
      (ℕ → Database) → (ℕ → Database) → Database → S → Job → Run → Outcome ExecutionResult
  execute_merge views later db objects job run =
      and_then (load_runtime_payload env db run.project_id run.runtime_version) λ _.
        elim (env.uuid (str run.project_id)) [
          | none ↦ bad_uuid
          | some id ↦
              let video = wait_for_runtime_asset views id run.runtime_version "generated_video" in
              let audio = wait_for_runtime_asset later id run.runtime_version "audio" in
              and_then
                (need video (
                  asset_missing "merge_video_asset_missing" "a generated_video"
                    run.runtime_version))
                λ v.
                  and_then
                    (need audio
                      (asset_missing "merge_audio_asset_missing" "an audio" run.runtime_version))
                    λ a. merge_assets objects job run v a
        ]
