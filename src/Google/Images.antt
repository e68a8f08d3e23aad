-- ===== src/Google/Images.antt =====
-- app/providers/google/client.py: the image in the relay's answer.
use ai_video_replication.Common.{if◌then◌else◌, Option, none, some, [], ◌∷◌, String, pos, truthy}
use ai_video_replication.Common.Json.{
  Json, str, int, arr, obj, Items, nil, cons, Dict, empty, entry, coerce_dict,
}
use ai_video_replication.Common.Strings.{◌<>◌, strip}
use ai_video_replication.Projects.Session.{Exn, Outcome, returned, raised, M, ◌>>=◌, lift}
use ai_video_replication.Tasks.{Bytes}
use ai_video_replication.Tasks.Content.{shown_as}
use ai_video_replication.Google.{Transport, invalid_response}
use ai_video_replication.Google.Values.{read_value, read_or}
use ai_video_replication.Common.Values.{or_json, str_json}
use ai_video_replication.Google.Media.{infer_image_content_type}
use ai_video_replication.Google.Download.{type_name, item_count, download_binary_url}

abbrev pub no_images : Exn
no_images = invalid_response "Google image response does not contain generated_images."

-- `_extract_generated_image`: no value of JSON is bytes.
unfoldable pub extract_generated_image : Items → Exn
extract_generated_image nil = no_images
extract_generated_image (cons first_generated rest) =
    elim (or_json (read_value (read_or first_generated "image" first_generated) "image_bytes")
      none) [
        | none ↦ invalid_response "Google image response does not contain image bytes."
        | some v ↦ invalid_response "Google image response returned non-bytes image payload."
      ]

-- A text that is not blank, as it is.
abbrev pub base64_text : Option Json → Option String
base64_text (some (str s)) = if truthy (strip s) then some s else none
base64_text _ = none

abbrev pub decoded_image : Bytes → String → Outcome (Bytes × String)
decoded_image [] content_type =
    raised (invalid_response "Google image response decoded to empty image bytes.")
decoded_image (b ∷ bs) content_type = returned (b ∷ bs, content_type)

abbrev pub image_summary : Items → Json → Dict
image_summary images response =
    entry "generated_images_count" (int (pos (item_count images)))
      (entry "response_type" (str (type_name response)) empty)

module _ {S : Type 0} (http : Transport S) where
  abbrev pub url_of : Json → Option String
  url_of first_generated = elim (or_json (read_value first_generated "url") none) [
    | none ↦ none
    | some v ↦ some (str_json http.repr v)
  ]

  -- The first image of `data`, decoded or downloaded.
  abbrev pub first_image : Json → M S (Bytes × String)
  first_image first_generated = elim (base64_text (read_value first_generated "b64_json")) [
    | some payload ↦ lift (elim (http.b64decode payload) [
      | raised e ↦ raised (
          invalid_response
            ("Google image response returned invalid base64 image payload: " <> shown_as e))
      | returned b ↦ decoded_image b (infer_image_content_type (url_of first_generated))
    ])
    | none ↦ elim (url_of first_generated) [
      | none ↦ lift (raised no_images)
      | some url ↦ download_binary_url http url
    ]
  ]

  abbrev pub image_of_data : Json → Option Json → M S (Bytes × String × Dict)
  image_of_data response (some (arr (cons x xs))) =
      first_image (obj (coerce_dict (some x))) >>= λ found.
      lift (returned (found.0, found.1, image_summary (cons x xs) response))
  image_of_data response _ = lift (raised no_images)

  unfoldable pub extract_relay_generated_image : Json → M S (Bytes × String × Dict)
  extract_relay_generated_image response = elim (read_value response "generated_images") [
    | some (arr images) ↦ lift (raised (extract_generated_image images))
    | _ ↦ image_of_data response (read_value response "data")
  ]
