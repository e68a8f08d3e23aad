-- ===== src/Google/Media.antt =====
-- app/providers/google/client.py: content types, image sizes and the urls of reference images.
use ai_video_replication.Common.{
  Bool, ◌||◌, if◌then◌else◌, Option, none, some, List, [], ◌∷◌, ◌++◌, String, ◌==◌,
}
use ai_video_replication.Common.Json.{Json, str, obj, Items, nil, cons, Dict, get}
use ai_video_replication.Common.Strings.{strip, lower, endswith, or_blank}
use ai_video_replication.Google.Values.{text_of}

abbrev pub image_type : Bool → Bool → String
image_type is_jpeg is_webp =
    if is_jpeg then "image/jpeg" else if is_webp then "image/webp" else "image/png"

unfoldable pub infer_image_content_type : Option String → String
unfolding lower endswith
infer_image_content_type image_uri =
    let normalized_uri = lower (or_blank image_uri) in
    image_type (endswith normalized_uri ".jpg" || endswith normalized_uri ".jpeg")
      (endswith normalized_uri ".webp")

unfoldable pub infer_video_content_type : Option String → String
unfolding lower endswith
infer_video_content_type video_uri =
    let normalized_uri = lower (or_blank video_uri) in
    if endswith normalized_uri ".mov"
    then "video/quicktime"
    else if endswith normalized_uri ".webm"
    then "video/webm"
    else "video/mp4"

unfoldable pub map_image_size : Option String → Option String
unfolding strip
map_image_size aspect_ratio =
    let normalized = strip (or_blank aspect_ratio) in
    if normalized == "1:1"
    then some "1024x1024"
    else if normalized == "16:9"
    then some "1536x864"
    else if normalized == "9:16"
    then some "864x1536"
    else if normalized == "4:3"
    then some "1152x864"
    else if normalized == "3:4"
    then some "864x1152"
    else none

abbrev pub first_text : Dict → List String → Option String
first_text d [] = none
first_text d (key ∷ keys) = elim (text_of (get key d)) [
  | some s ↦ some s
  | none ↦ first_text d keys
]

abbrev pub image_url_keys : List String
image_url_keys = "url" ∷ "uri" ∷ "image_url" ∷ "source_url" ∷ []

abbrev pub listed : Option String → List String
listed none = []
listed (some s) = s ∷ []

-- The url of one reference image, if it has one.
abbrev pub reference_url : Json → List String
reference_url (str s) = listed (text_of (some (str s)))
reference_url (obj d) = listed (first_text d image_url_keys)
reference_url _ = []

unfoldable pub extract_reference_image_urls : Items → List String
extract_reference_image_urls nil = []
extract_reference_image_urls (cons image images) =
    reference_url image ++ extract_reference_image_urls images
