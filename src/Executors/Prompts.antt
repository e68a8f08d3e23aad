-- ===== src/Executors/Prompts.antt =====
-- app/workers/executors.py: the texts and the options that a job asks the client for.
use ai_video_replication.Common.{
  ℕ, Bool, true, false, ◌||◌, if◌then◌else◌, Option, none, some, [], ◌∷◌, String, ℤ, pos, or_else,
  or_option,
}
use ai_video_replication.Common.Json.{
  Json, null, int, str, Dict, empty, entry, get, coerce_dict, coerce_list,
}
use ai_video_replication.Common.Strings.{◌<>◌}
use ai_video_replication.Common.Values.{given_json, str_json, or_json}
use ai_video_replication.Aggregate.{Job}
use ai_video_replication.Projects.Session.{provider_error, Outcome, returned, and_then, need}
use ai_video_replication.Google.Generate.{ImageRequest, VideoRequest}
use ai_video_replication.Executors.Values.{
  not_null, coerce_positive_int, normalize_video_duration_seconds, duration_ms_to_seconds,
  normalize_optional_text, coerce_bool, join_text_blocks, format_mapping,
}
use ai_video_replication.Executors.Selection.{
  Context, resolve_selected_sequence, select_primary_spu, select_image_sequence_spu,
}

-- An interval is a whole number of seconds here.
abbrev pub interval_in : Option Json → Option ℤ
interval_in (some (int n)) = some n
interval_in _ = none

abbrev pub or_null : Option Json → Json
or_null none = null
or_null (some v) = v

abbrev pub given_in : String → Dict → Bool
given_in key d = elim (given_json (get key d)) [ none ↦ false | some _ ↦ true ]

-- "job_payload" where the job itself gives the text, or else where the text comes from
abbrev pub text_source : Dict → Dict → String → String → String
text_source provider_inputs payload key otherwise =
    if given_in key provider_inputs || given_in key payload then "job_payload" else otherwise

abbrev pub spu_selection : Dict → Dict → String → Dict
spu_selection sequence spu prompt_source =
    entry "sequence_id" (or_null (get "sequence_id" sequence)) (
      entry "sequence_code" (or_null (get "sequence_code" sequence)) (
        entry "sequence_index" (or_null (get "sequence_index" sequence)) (
          entry "spu_id" (or_null (get "spu_id" spu)) (
            entry "spu_code" (or_null (get "spu_code" spu)) (
              entry "display_name" (or_null (get "display_name" spu))
                (entry "prompt_source" (str prompt_source) empty))))))

abbrev pub vbu_selection : Dict → Dict → String → Dict
vbu_selection sequence vbu source = entry "sequence_id" (or_null (get "sequence_id" sequence)) (
    entry "sequence_code" (or_null (get "sequence_code" sequence)) (
      entry "sequence_index" (or_null (get "sequence_index" sequence)) (
        entry "vbu_id" (or_null (get "vbu_id" vbu)) (
          entry "vbu_code" (or_null (get "vbu_code" vbu)) (
            entry "persuasive_role" (or_null (get "persuasive_role" vbu))
              (entry "text_source" (str source) empty))))))

module _ (repr : Json → String) where
  abbrev pub text_in : String → Dict → Option String
  text_in key d = normalize_optional_text repr (get key d)

  abbrev pub labelled : String → String → Dict → Option String
  labelled label key d = elim (given_json (get key d)) [
    | none ↦ none
    | some v ↦ some (label <> str_json repr v)
  ]

  abbrev pub shown_mapping : Option Json → String
  shown_mapping v = or_else (format_mapping repr v) "None"

  abbrev pub mapping_label : String → String → Dict → Option String
  mapping_label label key d = elim (given_json (get key d)) [
    | none ↦ none
    | some v ↦ some (label <> shown_mapping (some v))
  ]

  abbrev pub prefixed : String → Option String → Option String
  prefixed label none = none
  prefixed label (some s) = some (label <> s)

  unfoldable pub resolve_prompt_inputs : Context → Job → Outcome (ImageRequest × Dict)
  resolve_prompt_inputs c job =
      let payload = job.payload in
      let inputs = coerce_dict (get "provider_inputs" payload) in
      and_then
        (select_image_sequence_spu repr c.sequences
          (resolve_selected_sequence repr job c.sequences))
        λ found.
          let (sequence, spu) = found in
          let prompt =
            or_option (text_in "prompt" inputs)
              (or_option (text_in "prompt" payload) (text_in "prompt_text" spu)) in
          and_then
            (need prompt (
              provider_error "google_image_prompt_missing"
                ("render_image job " <> job.id <> " is missing provider_inputs.prompt / prompt")))
            λ text. returned (
              record {
                prompt = text;
                negative_prompt = normalize_optional_text repr (
                    or_json (get "negative_prompt" inputs)
                      (or_json (get "negative_prompt" payload) (get "negative_prompt_text" spu)));
                sample_count =
                    or_else (coerce_positive_int (get "sample_count" inputs) (some (pos 1)))
                      (pos 1);
                aspect_ratio = text_in "aspect_ratio" inputs;
                safety_setting = not_null (get "safety_setting" inputs);
                person_generation = text_in "person_generation" inputs;
              },
              spu_selection sequence spu (text_source inputs payload "prompt" "runtime_spu"),
            )

  abbrev pub prompt_blocks : Context → Dict → Dict → String → Option String
  prompt_blocks c sequence spu base_prompt =
      let reference = coerce_dict (get "reference" c.compile_options) in
      let reference_summary = join_text_blocks repr (
        text_in "structural_goal" reference
        ∷ format_mapping repr (get "retained_axes" reference)
        ∷ format_mapping repr (get "reference_beats" reference)
        ∷ text_in "notes" reference
        ∷ []) in
      let prompt_context = join_text_blocks repr (
        labelled "Project ID: " "project_id" c.runtime_payload
        ∷ labelled "Sequence type: " "sequence_type" sequence
        ∷ labelled "Persuasive goal: " "persuasive_goal" sequence
        ∷ labelled "SPU display name: " "display_name" spu
        ∷ prefixed "Style tags: " (format_mapping repr (get "style_tags" c.compile_options))
        ∷ mapping_label "Visual constraints: " "visual_constraints" spu
        ∷ mapping_label "Reference mapping: " "reference_mapping" spu
        ∷ prefixed "Reference guidance: " reference_summary
        ∷ []) in
      join_text_blocks repr (some base_prompt ∷ prompt_context ∷ [])

  unfoldable pub build_video_prompt : Context → Dict → Dict → Option String
  build_video_prompt c sequence spu = elim (text_in "prompt_text" spu) [
    | none ↦ none
    | some base_prompt ↦ prompt_blocks c sequence spu base_prompt
  ]

  unfoldable pub build_video_negative_prompt : Dict → Dict → Dict → Dict → Option String
  build_video_negative_prompt inputs payload compile_options spu =
      let explicit =
        or_option (text_in "negative_prompt" inputs)
          (or_option (text_in "negative_prompt" payload) (text_in "negative_prompt_text" spu)) in
      elim (format_mapping repr (get "banned_elements" compile_options)) [
        | none ↦ explicit
        | some banned ↦
            join_text_blocks repr (explicit ∷ some ("Avoid these elements: " <> banned) ∷ [])
      ]

  abbrev pub whole_seconds : Option ℕ → Option ℤ
  whole_seconds none = none
  whole_seconds (some n) = some (pos n)

  abbrev pub video_request : Context → Dict → Dict → Dict → String → VideoRequest
  video_request c inputs payload spu prompt =
      let constraints = coerce_dict (get "visual_constraints" spu) in
      record {
        prompt = prompt;
        negative_prompt = build_video_negative_prompt inputs payload c.compile_options spu;
        sample_count =
            or_else (coerce_positive_int (get "sample_count" inputs) (some (pos 1))) (pos 1);
        aspect_ratio =
            or_option (text_in "aspect_ratio" inputs) (
              or_option (text_in "aspect_ratio" payload)
                (text_in "aspect_ratio" c.compile_options));
        duration_seconds = whole_seconds (
            or_option (normalize_video_duration_seconds (get "duration_seconds" inputs))
              (duration_ms_to_seconds (get "duration_ms" spu)));
        fps = coerce_positive_int (get "fps" inputs) none;
        seed = coerce_positive_int (get "seed" inputs) none;
        resolution = or_option (text_in "resolution" inputs) (text_in "resolution" constraints);
        person_generation =
            or_option (text_in "person_generation" inputs)
              (text_in "person_generation" constraints);
        output_gcs_uri = text_in "output_gcs_uri" inputs;
        enhance_prompt = coerce_bool repr (get "enhance_prompt" inputs);
        compression_quality = text_in "compression_quality" inputs;
        last_frame = not_null (get "last_frame" inputs);
        mask = not_null (get "mask" inputs);
        reference_images = coerce_list (get "reference_images" inputs);
        poll_interval_seconds = interval_in (get "poll_interval_seconds" inputs);
        max_polls = coerce_positive_int (get "max_polls" inputs) none;
      }

  unfoldable pub resolve_video_inputs : Context → Job → Outcome (VideoRequest × Dict)
  resolve_video_inputs c job =
      let payload = job.payload in
      let inputs = coerce_dict (get "provider_inputs" payload) in
      and_then
        (select_primary_spu repr c.sequences (resolve_selected_sequence repr job c.sequences))
        λ found.
          let (sequence, spu) = found in
          let prompt =
            or_option (text_in "prompt" inputs)
              (or_option (text_in "prompt" payload) (build_video_prompt c sequence spu)) in
          and_then
            (need prompt (
              provider_error "google_video_prompt_missing" (
                "render_video job " <> job.id
                <> " could not derive a prompt from runtime payload")))
            λ text. returned (
              video_request c inputs payload spu text,
              spu_selection sequence spu (text_source inputs payload "prompt" "runtime_spu"),
            )
