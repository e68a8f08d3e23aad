-- ===== src/Tasks/Content.antt =====
-- app/workers/tasks.py: what a task demands of an executor's result, and the bytes that it stores.
use ai_video_replication.Common.{
  Bool, false, ◌||◌, if◌then◌else◌, Option, none, some, [], ◌∷◌, String, ◌==◌, truthy, or_str,
}
use ai_video_replication.Common.Strings.{◌<>◌, startswith, strip, lower, or_blank, utf8}
use ai_video_replication.Projects.Session.{
  Exn, provider_error, value_error, s3_error, failure, Outcome, returned, raised,
}
use ai_video_replication.Tasks.{
  Bytes, Payload, bytes, bytearray, memoryview, text, other, ExecutionResult, AssetPlan,
}

-- `_BINARY_REQUIRED_CONTENT_TYPE_PREFIXES`
abbrev pub is_binary : String → Bool
is_binary t = startswith t "image/" || (startswith t "video/" || startswith t "audio/")

unfoldable pub asset_requires_binary_payload : Option AssetPlan → Bool
unfolding lower strip
asset_requires_binary_payload none = false
asset_requires_binary_payload (some asset_plan) = is_binary (lower (strip asset_plan.content_type))

unfoldable pub resolve_asset_content_type : ExecutionResult → AssetPlan → String
resolve_asset_content_type execution_result asset_plan =
    or_str (some (strip (or_str execution_result.content_type asset_plan.content_type)))
      asset_plan.content_type

abbrev pub planned_type : Option AssetPlan → String
planned_type none = ""
planned_type (some asset_plan) = asset_plan.content_type

-- The checks of `_validate_execution_result` on the status; `unknown` stands for a blank one.
abbrev pub status_error : String → String → Option Exn
status_error task_name status =
    if status == "succeeded_stub"
    then some (
        provider_error "provider_stub_result_disallowed"
          (task_name <> " returned succeeded_stub; stub success is forbidden for runtime jobs."))
    else if status == "succeeded"
    then none
    else some (
        provider_error "provider_execution_not_succeeded"
          (task_name <> " returned unsupported execution status: " <> status))

abbrev pub stripped_status : ExecutionResult → String
stripped_status r = or_str (some (strip (or_blank r.status))) "unknown"

abbrev pub empty_error : String → String → Bytes → Option Exn
empty_error task_name content_type [] = some (
    provider_error "binary_payload_empty"
      (task_name <> " produced empty binary_payload for " <> content_type <> " artifacts."))
empty_error task_name content_type (b ∷ bs) = none

abbrev pub type_error : String → String → Exn
type_error task_name content_type =
    provider_error "binary_payload_invalid_type"
      (task_name <> " produced non-bytes binary_payload for " <> content_type <> " artifacts.")

-- The checks on the payload.
abbrev pub payload_error : String → String → Option Payload → Option Exn
payload_error task_name content_type none = some (
    provider_error "binary_payload_required"
      (task_name <> " requires binary_payload for " <> content_type <> " artifacts."))
payload_error task_name content_type (some (bytes b)) = empty_error task_name content_type b
payload_error task_name content_type (some (bytearray b)) = empty_error task_name content_type b
payload_error task_name content_type (some (memoryview b)) = empty_error task_name content_type b
payload_error task_name content_type (some (text s)) = some (type_error task_name content_type)
payload_error task_name content_type (some other) = some (type_error task_name content_type)

abbrev pub result_error : ExecutionResult → String → Option AssetPlan → Option Exn
result_error r task_name plan = elim (status_error task_name (stripped_status r)) [
  | some e ↦ some e
  | none ↦
      if asset_requires_binary_payload plan
      then payload_error task_name (planned_type plan) r.binary_payload
      else none
]

unfoldable pub validate_execution_result :
    ExecutionResult → String → Option AssetPlan → Outcome (Unit {0})
unfolding asset_requires_binary_payload
validate_execution_result execution_result task_name asset_plan =
    elim (result_error execution_result task_name asset_plan) [
      | none ↦ returned tt
      | some e ↦ raised e
    ]

abbrev pub text_bytes : Option String → Outcome Bytes
text_bytes none = raised (value_error "text_payload_missing_for_text_asset")
text_bytes (some t) = returned (utf8 t)

unfoldable pub resolve_materialization_payload : ExecutionResult → AssetPlan → Outcome Bytes
unfolding asset_requires_binary_payload
resolve_materialization_payload r asset_plan = elim r.binary_payload [
  | some (bytes b) ↦ returned b
  | some (bytearray b) ↦ returned b
  | some (memoryview b) ↦ returned b
  | some (text s) ↦
      if asset_requires_binary_payload (some asset_plan)
      then raised (value_error "unsupported_binary_payload_type")
      else returned (utf8 s)
  | some other ↦ raised (value_error "unsupported_binary_payload_type")
  | none ↦
      if asset_requires_binary_payload (some asset_plan)
      then raised (value_error "binary_payload_required_for_non_text_asset")
      else text_bytes r.text_payload
]

-- `getattr(exc, "code", None)` and `getattr(exc, "message", None)`, and `str(exc)`
abbrev pub code_of : Exn → Option String
code_of (provider_error code message) = some code
code_of (s3_error code message shown) = code
code_of (value_error shown) = none
code_of (failure shown) = none

abbrev pub message_of : Exn → Option String
message_of (provider_error code message) = some message
message_of (s3_error code message shown) = message
message_of (value_error shown) = none
message_of (failure shown) = none

abbrev pub shown_as : Exn → String
shown_as (provider_error code message) = message
shown_as (s3_error code message shown) = shown
shown_as (value_error shown) = shown
shown_as (failure shown) = shown

-- A text that is not blank, or else the other one.
abbrev pub unless_blank : Option String → String → String
unless_blank none d = d
unless_blank (some s) d = if truthy (strip s) then s else d

unfoldable pub extract_error_details : Exn → String × String
extract_error_details e =
    (unless_blank (code_of e) "worker_execution_failed", unless_blank (message_of e) (shown_as e))
