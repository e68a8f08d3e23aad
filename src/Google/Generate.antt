-- ===== src/Google/Generate.antt =====
-- app/providers/google/client.py: the three operations of the client.
pub mod Failures
use ai_video_replication.Common.{
  Bool, true, false, not, if◌then◌else◌, Option, none, some, List, [], ◌∷◌, String, ℤ, pos, leb_ℤ,
  truthy, or_str, or_else, length, given,
}
use ai_video_replication.Common.Json.{
  Json, null, boolean, int, str, arr, obj, Items, nil, cons, Dict, empty, entry, put,
}
use ai_video_replication.Common.Strings.{◌<>◌, strip}
use ai_video_replication.Common.Text.{codes}
use ai_video_replication.Projects.Session.{
  Exn, provider_error, value_error, s3_error, failure, Outcome, returned, raised, M, ◌>>=◌, lift,
}
use ai_video_replication.Tasks.{Bytes}
use ai_video_replication.Tasks.Materialize.{opt_json}
use ai_video_replication.Google.{Transport, Client, Generated}
use ai_video_replication.Google.Media.{map_image_size, extract_reference_image_urls}
use ai_video_replication.Google.Polling.{request_json, poll_video_operation, or_raise}
use ai_video_replication.Google.Download.{item_count, extract_generated_video}
use ai_video_replication.Google.Images.{extract_relay_generated_image}

pub record ImageRequest : Type 0 where
  pub prompt : String
  pub negative_prompt : Option String
  pub sample_count : ℤ
  pub aspect_ratio : Option String
  pub safety_setting : Option Json
  pub person_generation : Option String

-- `poll_interval_seconds` is a whole number.
pub record VideoRequest : Type 0 where
  pub prompt : String
  pub negative_prompt : Option String
  pub sample_count : ℤ
  pub aspect_ratio : Option String
  pub duration_seconds : Option ℤ
  pub fps : Option ℤ
  pub seed : Option ℤ
  pub resolution : Option String
  pub person_generation : Option String
  pub output_gcs_uri : Option String
  pub enhance_prompt : Option Bool
  pub compression_quality : Option String
  pub last_frame : Option Json
  pub mask : Option Json
  pub reference_images : Items
  pub poll_interval_seconds : Option ℤ
  pub max_polls : Option ℤ

-- `max(1, int(sample_count or 1))`
abbrev pub at_least_one : ℤ → ℤ
at_least_one n = if leb_ℤ (pos 1) n then n else pos 1

-- `if value: payload[key] = value`, `if value is not None: payload[key] = value`
abbrev pub with_text : String → Option String → Dict → Dict
with_text key o d = elim (given o) [ none ↦ d | some s ↦ entry key (str s) d ]

abbrev pub with_value : {A : Type 0} → (A → Json) → String → Option A → Dict → Dict
with_value f key none d = d
with_value f key (some v) d = entry key (f v) d

abbrev pub value_or_null : {A : Type 0} → (A → Json) → Option A → Json
value_or_null f none = null
value_or_null f (some v) = f v

abbrev pub same_json : Json → Json
same_json v = v

abbrev pub json_items : List String → Items
json_items [] = nil
json_items (u ∷ us) = cons (str u) (json_items us)

abbrev pub with_images : List String → Dict → Dict
with_images [] d = d
with_images (u ∷ us) d = entry "images" (arr (json_items (u ∷ us))) d

-- `except GoogleProviderError: raise`, and any other exception under the code of the operation
abbrev pub as_provider_error : String → String → Exn → Exn
as_provider_error code message (provider_error c m) = provider_error c m
as_provider_error code message (value_error shown) = provider_error code (message <> shown)
as_provider_error code message (s3_error c m shown) = provider_error code (message <> shown)
as_provider_error code message (failure shown) = provider_error code (message <> shown)

abbrev pub not_configured : Exn
not_configured = provider_error "google_provider_not_configured" "Google API key is not configured."

abbrev pub generated : Dict → Bytes × String × Dict → Generated
generated about (content, content_type, summary) = record {
  content = content;
  content_type = content_type;
  provider_payload = put "response" (obj summary) about;
}

module _ {S : Type 0} (http : Transport S) (client : Client) where
  abbrev pub image_payload : ImageRequest → Dict
  image_payload q = entry "model" (str client.image_model) (
      entry "prompt" (str (or_str (some (strip q.prompt)) q.prompt)) (
        entry "n" (int (at_least_one q.sample_count))
          (with_text "size" (map_image_size q.aspect_ratio) empty)))

  abbrev pub image_about : ImageRequest → Dict
  image_about q = entry "model" (str client.image_model) (
      entry "sdk" (str "google-genai") (
        entry "request"
          (obj (
            entry "sample_count" (int q.sample_count) (
              entry "aspect_ratio" (opt_json q.aspect_ratio) (
                entry "safety_setting" (value_or_null same_json q.safety_setting) (
                  entry "person_generation" (opt_json q.person_generation) (
                    entry "negative_prompt_present"
                      (boolean (truthy (or_else q.negative_prompt "")))
                      (entry "negative_prompt_forwarded" (boolean false) empty)))))))
          empty))

  -- The `try` of an operation, and what is returned after it.
  abbrev pub relayed : String → String → Dict → M S (Bytes × String × Dict) → M S Generated
  relayed code message about m = or_raise http (as_provider_error code message) m >>= λ found.
      lift (returned (generated about found))

  abbrev pub relay_image : ImageRequest → M S (Bytes × String × Dict)
  relay_image q =
      request_json http "POST" (codes "/v1/images/generations") (obj (image_payload q))
      >>= extract_relay_generated_image http

  unfoldable pub generate_image : ImageRequest → M S Generated
  generate_image q =
      if not (truthy client.api_key)
      then lift (raised not_configured)
      else if not (truthy client.image_model)
      then lift (
          raised (
            provider_error "google_image_model_not_configured"
              "Google image model is not configured."))
      else relayed "google_image_generation_failed"
          "Google image generation request failed via relay HTTP API: " (image_about q)
          (relay_image q)

  abbrev pub video_payload : VideoRequest → Dict
  video_payload q = entry "model" (str client.video_model) (
      entry "prompt" (str (strip q.prompt)) (
        entry "sample_count" (int (at_least_one q.sample_count)) (
          with_text "negative_prompt" q.negative_prompt (
            with_text "aspect_ratio" q.aspect_ratio (
              with_value int "duration_seconds" q.duration_seconds (
                with_value int "fps" q.fps (
                  with_value int "seed" q.seed (
                    with_text "resolution" q.resolution (
                      with_text "person_generation" q.person_generation (
                        with_text "output_gcs_uri" q.output_gcs_uri (
                          with_value boolean "enhance_prompt" q.enhance_prompt (
                            with_text "compression_quality" q.compression_quality (
                              with_value same_json "last_frame" q.last_frame (
                                with_value same_json "mask" q.mask (
                                  with_images (extract_reference_image_urls q.reference_images)
                                    empty)))))))))))))))

  abbrev pub interval_of : VideoRequest → ℤ
  interval_of q = or_else q.poll_interval_seconds (pos 20)

  abbrev pub polls_of : VideoRequest → ℤ
  polls_of q = or_else q.max_polls (pos 45)

  abbrev pub video_about : VideoRequest → Dict
  video_about q = entry "model" (str client.video_model) (
      entry "sdk" (str "google-genai") (
        entry "request"
          (obj (
            entry "sample_count" (int q.sample_count) (
              entry "aspect_ratio" (opt_json q.aspect_ratio) (
                entry "duration_seconds" (value_or_null int q.duration_seconds) (
                  entry "fps" (value_or_null int q.fps) (
                    entry "seed" (value_or_null int q.seed) (
                      entry "resolution" (opt_json q.resolution) (
                        entry "person_generation" (opt_json q.person_generation) (
                          entry "output_gcs_uri" (opt_json q.output_gcs_uri) (
                            entry "enhance_prompt" (value_or_null boolean q.enhance_prompt) (
                              entry "compression_quality" (opt_json q.compression_quality) (
                                entry "negative_prompt_present"
                                  (boolean (truthy (or_else q.negative_prompt "")))
                                  (entry "reference_images_count"
                                    (int (pos (item_count q.reference_images)))
                                    (entry "poll_interval_seconds" (int (interval_of q))
                                      (entry "max_polls" (int (polls_of q)) empty)))))))))))))))
          empty))

  abbrev pub relay_video : VideoRequest → M S (Bytes × String × Dict)
  relay_video q =
      request_json http "POST" (codes "/v1/video/create") (obj (video_payload q)) >>= λ operation.
      poll_video_operation http operation (interval_of q) (polls_of q)
      >>= extract_generated_video http

  unfoldable pub generate_video : VideoRequest → M S Generated
  generate_video q =
      if not (truthy client.api_key)
      then lift (raised not_configured)
      else if not (truthy client.video_model)
      then lift (
          raised (
            provider_error "google_video_model_not_configured"
              "Google video model is not configured."))
      else if not (truthy (strip q.prompt))
      then lift (
          raised (
            provider_error "google_video_prompt_missing"
              "Google video generation prompt is missing."))
      else relayed "google_video_generation_failed"
          "Google video generation request failed via relay HTTP API: " (video_about q)
          (relay_video q)

  -- The answer is an exception on every path.
  unfoldable pub generate_voice : String → Exn
  generate_voice text =
      if not (truthy client.api_key)
      then not_configured
      else if not (truthy client.tts_model)
      then provider_error "google_tts_model_not_configured" "Google TTS model is not configured."
      else if not (truthy (strip text))
      then provider_error "google_tts_text_missing" "Google TTS input text is missing."
      else provider_error "google_tts_generation_failed"
          "Google TTS generation is not supported by the configured relay provider."
