-- ===== src/Executors/Voices.antt =====
-- app/workers/executors.py: the text of a voice job and what goes with it.
use ai_video_replication.Common.{
  not, ◌&&◌, if◌then◌else◌, Option, none, some, List, [], ◌∷◌, ◌++◌, String, ◌==◌, or_else,
  or_option, truthy,
}
use Prim.Native.Char.{code}
use ai_video_replication.Common.{nat_eq}
use ai_video_replication.Common.Json.{Json, obj, Dict, empty, get, coerce_dict}
use ai_video_replication.Common.Strings.{◌<>◌, strip}
use ai_video_replication.Common.Values.{given_json, str_json}
use ai_video_replication.Aggregate.{Job}
use ai_video_replication.Projects.Session.{
  provider_error, value_error, s3_error, failure, Outcome, returned, raised, and_then, need,
}
use ai_video_replication.Executors.Values.{joined, present_texts, not_null, normalize_optional_text}
use ai_video_replication.Executors.Selection.{
  Context, resolve_selected_sequence, select_primary_vbu, select_voice_fallback_sequence_spu,
}
use ai_video_replication.Executors.Prompts.{text_in, text_source, vbu_selection}

-- What a voice job asks for; the client uses the text only.
pub record VoiceInputs : Type 0 where
  pub text : String
  pub voice_name : Option String
  pub language_code : String
  pub speech_config : Option Json
  pub selection : Dict

-- `text.rstrip(".")`
unfoldable pub without_dots : String → String
without_dots String.[] = String.[]
without_dots (String.◌∷◌ c s) =
    let rest = without_dots s in
    if not (truthy rest) && nat_eq (code c) b'.' then String.[] else String.◌∷◌ c rest

abbrev pub sentence : Option String → List String
sentence none = []
sentence (some s) = (without_dots s <> ".") ∷ []

abbrev pub sentence_with : String → Option String → String → List String
sentence_with before none after = []
sentence_with before (some s) after = (before <> s <> after) ∷ []

-- `if not narration_parts and ...: narration_parts.append(...)`
abbrev pub or_parts : List String → List String → List String
or_parts [] otherwise = otherwise
or_parts (s ∷ parts) otherwise = s ∷ parts

abbrev pub stripped_parts : List String → List String
stripped_parts [] = []
stripped_parts (s ∷ parts) =
    if truthy (strip s) then strip s ∷ stripped_parts parts else stripped_parts parts

-- What is spoken: the sequence, the unit, its parameters, and where the text is from.
pub record Spoken : Type 0 where
  pub sequence : Dict
  pub vbu : Dict
  pub tts_params : Dict
  pub text : Option String
  pub source : String

module _ (repr : Json → String) where
  unfoldable pub build_voice_fallback_text : Context → Dict → Dict → Option String
  build_voice_fallback_text c sequence spu =
      let source_kind =
        text_in repr "source_kind" (coerce_dict (get "reference" c.compile_options)) in
      let parts =
        sentence (text_in repr "persuasive_goal" sequence)
        ++ (sentence_with "Focus on " (text_in repr "display_name" spu) "."
            ++ sentence_with "Keep the delivery aligned with the " source_kind
                " reference style.") in
      let with_prompt = or_parts parts (present_texts (text_in repr "prompt_text" spu ∷ [])) in
      let whole = or_parts with_prompt (elim (given_json (get "project_id" c.runtime_payload)) [
        | none ↦ []
        | some id ↦ ("Create a concise voiceover for project " <> str_json repr id <> ".") ∷ []
      ]) in
      joined " " (stripped_parts whole)

  abbrev pub voice_fallback : Context → Option Dict → Outcome Spoken
  voice_fallback c selected =
      and_then (select_voice_fallback_sequence_spu repr c.sequences selected) λ found.
        let (sequence, spu) = found in
        returned record {
          sequence = sequence;
          vbu = empty;
          tts_params = empty;
          text = build_voice_fallback_text c sequence spu;
          source = "runtime_fallback";
        }

  -- `try` and `except ProviderExecutorError`: the selection raises no other code.
  abbrev pub spoken : Context → Option Dict → Outcome Spoken
  spoken c selected = elim (select_primary_vbu repr c.sequences selected) [
    | returned found ↦ returned record {
      sequence = found.0;
      vbu = found.1;
      tts_params = coerce_dict (get "tts_params" found.1);
      text = text_in repr "script_text" found.1;
      source = "runtime_vbu";
    }
    | raised (provider_error code message) ↦
        if code == "runtime_vbu_missing"
        then voice_fallback c selected
        else raised (provider_error code message)
    | raised (value_error shown) ↦ raised (value_error shown)
    | raised (s3_error code message shown) ↦ raised (s3_error code message shown)
    | raised (failure shown) ↦ raised (failure shown)
  ]

  unfoldable pub resolve_voice_profile_name : Option Json → Option String
  resolve_voice_profile_name (some (obj d)) =
      or_option (text_in repr "voice_name" d) (text_in repr "name" d)
  resolve_voice_profile_name v = normalize_optional_text repr v

  abbrev pub or_config : Option Json → Option Json → Option Json
  or_config a b = elim (not_null a) [ none ↦ not_null b | some v ↦ some v ]

  abbrev pub voice_inputs : Dict → Dict → String → Spoken → String → VoiceInputs
  voice_inputs inputs payload default_language s text = record {
    text = text;
    voice_name = or_option (text_in repr "voice_name" inputs) (
        or_option (text_in repr "voice_name" payload) (
          or_option (text_in repr "voice_name" s.tts_params)
            (resolve_voice_profile_name (get "voice_profile" s.vbu))));
    language_code =
        or_else
          (or_option (text_in repr "language_code" inputs) (
            or_option (text_in repr "language_code" payload) (
              or_option (text_in repr "language_code" s.tts_params)
                (text_in repr "language" s.vbu))))
          default_language;
    speech_config =
        or_config (get "speech_config" inputs)
          (or_config (get "speech_config" payload) (get "speech_config" s.tts_params));
    selection = vbu_selection s.sequence s.vbu (text_source inputs payload "text" s.source);
  }

  unfoldable pub resolve_voice_inputs : String → Context → Job → Outcome VoiceInputs
  resolve_voice_inputs default_language c job =
      let payload = job.payload in
      let inputs = coerce_dict (get "provider_inputs" payload) in
      and_then (spoken c (resolve_selected_sequence repr job c.sequences)) λ (s : Spoken).
        let text =
          or_option (text_in repr "text" inputs) (or_option (text_in repr "text" payload) s.text) in
        and_then
          (need text (
            provider_error "google_tts_text_missing" (
              "render_voice job " <> job.id
              <> " could not derive script text from runtime payload")))
          λ t. returned (voice_inputs inputs payload default_language s t)
