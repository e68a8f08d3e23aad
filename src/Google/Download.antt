-- ===== src/Google/Download.antt =====
-- app/providers/google/client.py: where a finished operation says that its video is, and the download.
pub mod Urls
use ai_video_replication.Common.{
  ℕ, Bool, true, false, ◌||◌, if◌then◌else◌, Option, none, some, List, [], ◌∷◌, String, ◌==◌, leb,
  ℤ, pos, truthy, or_str, or_option, given, length,
}
use Prim.Native.Nat.{◌+◌}
use ai_video_replication.Common.Json.{
  Json, null, boolean, int, decimal, str, moment, arr, obj, Items, nil, cons, Dict, empty, entry,
  get,
}
use ai_video_replication.Common.Strings.{◌<>◌, strip, startswith, lower, str_ℕ, or_blank}
use ai_video_replication.Projects.Session.{
  Exn, provider_error, failure, Outcome, returned, raised, and_then, M, ◌>>=◌, ◌>>◌, pure, lift,
}
use ai_video_replication.Tasks.{Bytes}
use ai_video_replication.Tasks.Content.{shown_as}
use ai_video_replication.Common.Values.{truthy_json}
use ai_video_replication.Google.{Response, Transport, invalid_response}
use ai_video_replication.Google.Values.{known, read_value, read_or, text_of}
use ai_video_replication.Common.Values.{or_json, str_json}
use ai_video_replication.Google.Media.{infer_image_content_type, infer_video_content_type}
use ai_video_replication.Google.Polling.{or_raise}

abbrev pub is_http : String → Bool
is_http s = startswith s "http://" || startswith s "https://"

-- A text that is a url once it is stripped.
abbrev pub http_url : Option Json → Option String
http_url (some (str s)) = if is_http (strip s) then some (strip s) else none
http_url _ = none

abbrev pub direct_url : Dict → Option String
direct_url d = or_option (http_url (get "url" d)) (
    or_option (http_url (get "uri" d))
      (or_option (http_url (get "download_url" d)) (http_url (get "video_url" d))))

-- `_resolve_video_download_url_from_candidate`, its loop over a list, and its look-up of one key
unfoldable mutual
  pub from_candidate : Json → Option String
  from_candidate (str s) = http_url (some (str s))
  from_candidate (arr xs) = from_items xs
  from_candidate (obj d) = or_option (direct_url d) (
      or_option (from_key "video" d) (
        or_option (from_key "file" d) (
          or_option (from_key "output" d) (
            or_option (from_key "result" d)
              (or_option (from_key "data" d) (from_key "assets" d))))))
  from_candidate null = none
  from_candidate (boolean b) = none
  from_candidate (int n) = none
  from_candidate (decimal t) = none
  from_candidate (moment t) = none

  pub from_items : Items → Option String
  from_items nil = none
  from_items (cons x xs) = or_option (from_candidate x) (from_items xs)

  pub from_key : String → Dict → Option String
  from_key key empty = none
  from_key key (entry k v d) =
      let rest = from_key key d in let here = from_candidate v in if k == key then here else rest

abbrev pub or_from : Option Json → Option String → Option String
or_from none rest = rest
or_from (some v) rest = or_option (from_candidate v) rest

unfoldable pub resolve_video_download_url : Json → Option String
unfolding from_candidate
resolve_video_download_url payload = or_option (text_of (read_value payload "video_url")) (
    or_option (text_of (read_value payload "download_url")) (
      or_option (text_of (read_value payload "url")) (
        or_from (read_value payload "video") (
          or_from (read_value payload "output") (
            or_from (read_value payload "result") (
              or_from (read_value payload "data") (
                or_from (read_value payload "file")
                  (or_from (read_value payload "assets") none))))))))

abbrev pub item_count : Items → ℕ
item_count nil = 0
item_count (cons x xs) = 1 + item_count xs

-- `len(value)` of a list that is not empty, or else what follows
abbrev pub counted_or : Option Json → ℕ → ℕ
counted_or (some (arr (cons x xs))) n = item_count (cons x xs)
counted_or _ n = n

unfoldable pub count_generated_videos : Json → ℕ
count_generated_videos payload =
    let others =
      counted_or (read_value payload "output")
        (counted_or (read_value payload "data") (counted_or (read_value payload "assets") 1)) in
    elim (read_value payload "result") [
      | some result ↦ counted_or (read_value result "generated_videos") others
      | none ↦ others
    ]

-- `type(value).__name__`
abbrev pub type_name : Json → String
type_name null = "NoneType"
type_name (boolean b) = "bool"
type_name (int n) = "int"
type_name (decimal t) = "float"
type_name (str s) = "str"
type_name (moment t) = "str"
type_name (arr xs) = "list"
type_name (obj d) = "dict"

abbrev pub first_video : Option Json → Option Json
first_video (some (arr (cons x xs))) = some x
first_video _ = none

abbrev pub listed_in : Json → Option Json
listed_in operation = elim (known (read_value operation "result")) [
  | none ↦ none
  | some result ↦ read_value result "generated_videos"
]

abbrev pub json_or_null : Option Json → Json
json_or_null none = null
json_or_null (some v) = v

abbrev pub no_uri : Exn
no_uri = invalid_response "Google video response does not contain a downloadable video uri."

module _ {S : Type 0} (http : Transport S) where
  -- the checks of `_download_binary_url` on a response
  abbrev pub downloaded : String → Response → Outcome (Bytes × String)
  downloaded url r =
      if leb 400 r.status_code
      then raised (failure ("HTTP " <> str_ℕ r.status_code <> ": " <> r.text))
      else if startswith (lower (or_blank r.content_type)) "application/json"
      then raised (failure r.text)
      else returned (r.content, or_str r.content_type (infer_image_content_type (some url)))

  unfoldable pub download_binary_url : String → M S (Bytes × String)
  download_binary_url url s =
      let (response, s') = http.get url s in (and_then response (downloaded url), s')

  abbrev pub download_failed : String → Exn → Exn
  download_failed uri e =
      provider_error "google_video_download_failed"
        ("Google video download failed for uri=" <> uri <> ": " <> shown_as e)

  -- `result.generated_videos[0]`: httpx's client has no `files`, so that its download raises.
  abbrev pub listed_video : Json → Outcome (Bytes × String × Dict)
  listed_video first_generated =
      elim (known (some (read_or first_generated "video" first_generated))) [
        | none ↦ raised (invalid_response "Google video response does not contain a video object.")
        | some video ↦ elim (or_json (read_value video "uri") none) [
          | none ↦ raised no_uri
          | some uri ↦ raised (
              download_failed (str_json http.repr uri)
                (failure "'Client' object has no attribute 'files'"))
        ]
      ]

  abbrev pub video_url : Json → Option String
  video_url operation =
      let result = known (read_value operation "result") in
      let place : Json = elim result [ none ↦ operation | some r ↦ r ] in
      or_option (given (resolve_video_download_url place)) (resolve_video_download_url operation)

  abbrev pub video_summary : Json → String → Dict
  video_summary operation uri =
      entry "operation_name"
        (json_or_null (or_json (read_value operation "name") (read_value operation "id")))
        (entry "operation_type" (str (type_name operation)) (
          entry "result_type" (str (type_name (read_or operation "result" operation))) (
            entry "generated_videos_count" (int (pos (count_generated_videos operation)))
              (entry "video_uri" (str uri) empty))))

  -- A download that came back with bytes, or empty.
  abbrev pub checked_video : Json → String → Bytes × String → Outcome (Bytes × String × Dict)
  checked_video operation uri ([], content_type) =
      raised (invalid_response "Google video download produced empty video bytes.")
  checked_video operation uri (b ∷ bs, content_type) = returned (
    b ∷ bs,
    or_str (some content_type) (infer_video_content_type (some uri)),
    video_summary operation uri,
  )

  unfoldable pub extract_generated_video : Json → M S (Bytes × String × Dict)
  extract_generated_video operation = elim (first_video (listed_in operation)) [
    | some first_generated ↦ lift (listed_video first_generated)
    | none ↦ elim (video_url operation) [
      | none ↦ lift (raised no_uri)
      | some uri ↦ or_raise http (download_failed uri) (download_binary_url uri) >>= λ found.
          lift (checked_video operation uri found)
    ]
  ]
