-- ===== src/Executors/Selection.antt =====
-- app/workers/executors.py: the runtime's payload, and the sequence and the unit that a job works on.
use ai_video_replication.Common.{
  Bool, true, false, if◌then◌else◌, Option, none, some, String, ℤ, leb_ℤ, option_is, or_option,
}
use ai_video_replication.Common.Json.{
  Json, obj, Items, nil, cons, Dict, empty, entry, get, coerce_dict, coerce_list,
}
use ai_video_replication.Common.Strings.{◌<>◌}
use ai_video_replication.Aggregate.{Job, CompiledRuntime}
use ai_video_replication.Projects.{Database}
use ai_video_replication.Projects.Session.{
  Exn, provider_error, Outcome, returned, raised, and_then, need,
}
use ai_video_replication.Tasks.{Surroundings}
use ai_video_replication.Tasks.Marks.{load_runtime}
use ai_video_replication.Executors.Values.{coerce_non_negative_int, normalize_optional_text}

abbrev pub is_empty_dict : Dict → Bool
is_empty_dict empty = true
is_empty_dict (entry k v d) = false

-- What `_resolve_runtime_context` returns.
pub record Context : Type 0 where
  pub runtime : CompiledRuntime
  pub runtime_payload : Dict
  pub compile_options : Dict
  pub sequences : Items

abbrev pub runtime_not_found : String → String → Exn
runtime_not_found project_id runtime_version = provider_error "runtime_not_found" (
    "Compiled runtime not found for project_id=" <> project_id <> ", runtime_version="
    <> runtime_version <> ".")

abbrev pub payload_missing : String → String → Exn
payload_missing project_id runtime_version = provider_error "runtime_payload_missing" (
    "Compiled runtime payload is empty for project_id=" <> project_id <> ", runtime_version="
    <> runtime_version <> ".")

module _ {S : Type 0} (env : Surroundings S) where
  unfoldable pub load_runtime_payload : Database → String → String → Outcome CompiledRuntime
  load_runtime_payload db project_id runtime_version =
      and_then (load_runtime env project_id runtime_version db) λ found.
        and_then (need found (runtime_not_found project_id runtime_version))
          λ (runtime : CompiledRuntime).
            if is_empty_dict runtime.runtime_payload
            then raised (payload_missing project_id runtime_version)
            else returned runtime

  unfoldable pub resolve_runtime_context : Database → String → String → Outcome Context
  resolve_runtime_context db project_id runtime_version =
      and_then (load_runtime_payload db project_id runtime_version) λ (runtime : CompiledRuntime).
        returned record {
          runtime = runtime;
          runtime_payload = runtime.runtime_payload;
          compile_options = coerce_dict (get "compile_options" runtime.runtime_payload);
          sequences = coerce_list (get "sequences" runtime.runtime_payload);
        }

-- The first dict of a list that passes.
abbrev pub first_dict : (Dict → Bool) → Items → Option Dict
first_dict p nil = none
first_dict p (cons x xs) =
    let rest = first_dict p xs in
    if p (coerce_dict (some x)) then some (coerce_dict (some x)) else rest

-- The loops over the sequences and, in each, over its units of one kind.
abbrev pub search_units : String → (Dict → Dict → Bool) → Items → Option (Dict × Dict)
search_units kind p nil = none
search_units kind p (cons x xs) =
    let rest = search_units kind p xs in
    let sequence = coerce_dict (some x) in
    elim (first_dict (p sequence) (coerce_list (get kind sequence))) [
      | some unit ↦ some (sequence, unit)
      | none ↦ rest
    ]

-- `[selected_sequence] if selected_sequence is not None else sequences`
abbrev pub searched : Option Dict → Items → Items
searched none sequences = sequences
searched (some selected) sequences = cons (obj selected) nil

abbrev pub spu_missing : Option Dict → Exn
spu_missing (some selected) =
    provider_error "runtime_spu_missing"
      "Selected runtime sequence does not contain any SPU with prompt_text for render_video."
spu_missing none =
    provider_error "runtime_spu_missing"
      "Compiled runtime does not contain any SPU with prompt_text for render_video."

abbrev pub vbu_missing : Option Dict → Exn
vbu_missing (some selected) =
    provider_error "runtime_vbu_missing"
      "Selected runtime sequence does not contain any VBU with script_text for render_voice."
vbu_missing none =
    provider_error "runtime_vbu_missing"
      "Compiled runtime does not contain any VBU with script_text for render_voice."

abbrev pub has_index : ℤ → Option ℤ → Bool
has_index n none = false
has_index n (some m) = if leb_ℤ m n then leb_ℤ n m else false

module _ (repr : Json → String) where
  abbrev pub has_text : String → Dict → Bool
  has_text key d = elim (normalize_optional_text repr (get key d)) [ none ↦ false | some _ ↦ true ]

  -- `_resolve_sequence_selector`
  abbrev pub requested_id : Job → Option String
  requested_id job =
      or_option
        (normalize_optional_text repr
          (get "sequence_id" (coerce_dict (get "sequence_selector" job.payload))))
        (normalize_optional_text repr (get "sequence_id" job.payload))

  abbrev pub requested_index : Job → Option ℤ
  requested_index job =
      or_option
        (coerce_non_negative_int
          (get "sequence_index" (coerce_dict (get "sequence_selector" job.payload))))
        (coerce_non_negative_int (get "sequence_index" job.payload))

  abbrev pub by_id : String → Dict → Bool
  by_id id d = option_is (normalize_optional_text repr (get "sequence_id" d)) id

  abbrev pub by_position : ℤ → Dict → Bool
  by_position n d = has_index n (coerce_non_negative_int (get "sequence_index" d))

  abbrev pub first_by : {A : Type 0} → Option A → (A → Dict → Bool) → Items → Option Dict
  first_by none p sequences = none
  first_by (some a) p sequences = first_dict (p a) sequences

  unfoldable pub resolve_selected_sequence : Job → Items → Option Dict
  unfolding normalize_optional_text
  resolve_selected_sequence job sequences =
      or_option (first_by (requested_id job) by_id sequences)
        (first_by (requested_index job) by_position sequences)

  unfoldable pub select_primary_spu : Items → Option Dict → Outcome (Dict × Dict)
  select_primary_spu sequences selected =
      need (search_units "spus" (λ _. has_text "prompt_text") (searched selected sequences))
        (spu_missing selected)

  unfoldable pub select_primary_vbu : Items → Option Dict → Outcome (Dict × Dict)
  select_primary_vbu sequences selected =
      need (search_units "vbus" (λ _. has_text "script_text") (searched selected sequences))
        (vbu_missing selected)

  -- `_select_image_sequence_spu` and `_select_first_prompt_spu`
  unfoldable pub select_image_sequence_spu : Items → Option Dict → Outcome (Dict × Dict)
  select_image_sequence_spu sequences none = select_primary_spu sequences none
  select_image_sequence_spu sequences (some selected) = returned (
    selected,
    elim (first_dict (has_text "prompt_text") (coerce_list (get "spus" selected))) [
      | none ↦ empty
      | some spu ↦ spu
    ],
  )

  abbrev pub speaks : Dict → Dict → Bool
  speaks sequence spu =
      if has_text "display_name" spu
      then true
      else if has_text "prompt_text" spu
      then true
      else has_text "persuasive_goal" sequence

  unfoldable pub select_voice_fallback_sequence_spu : Items → Option Dict → Outcome (Dict × Dict)
  select_voice_fallback_sequence_spu sequences selected =
      need (search_units "spus" speaks (searched selected sequences)) (vbu_missing selected)
