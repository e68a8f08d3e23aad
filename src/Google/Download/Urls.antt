-- ===== src/Google/Download/Urls.antt =====
-- What is downloaded, and what it is called.
use ai_video_replication.Common.{
  ℕ, ◌≡◌, refl, arith, inl, inr, Bool, true, false, Bool-cases, Option, none, some, String, ◌==◌,
  or_option, or_str, leb, ◌∷◌,
}
use ai_video_replication.Common.Json.{
  Json, null, boolean, int, decimal, str, moment, arr, obj, Items, nil, cons, Dict, empty, entry,
  get,
}
use ai_video_replication.Common.Strings.{strip, lower}
use ai_video_replication.Projects.Session.{returned, ◌>>=◌, and_then}
use ai_video_replication.Tasks.{Bytes}
use ai_video_replication.Google.{Response, Transport}
use ai_video_replication.Google.Media.{
  image_type, infer_image_content_type, infer_video_content_type,
}
use ai_video_replication.Google.Polling.{or_raise}
use ai_video_replication.Google.Download.{
  is_http, http_url, direct_url, from_candidate, from_items, from_key, downloaded, checked_video,
  download_binary_url, extract_generated_video, first_video, listed_in, video_url, video_summary,
}

-- Every url that such a value holds is one of the web.
record AllHttp (o : Option String) : Type 0 where
  http : (u : String) → o ≡ some u → is_http u ≡ true

none-AllHttp : AllHttp none
none-AllHttp = record { http = λ u h. cc }

or_option-AllHttp : (a b : Option String) → AllHttp a → AllHttp b → AllHttp (or_option a b)
or_option-AllHttp none b p q = q
or_option-AllHttp (some s) b p q = p

http_url-AllHttp : (o : Option Json) → AllHttp (http_url o)
http_url-AllHttp none = none-AllHttp
http_url-AllHttp (some (str s)) = elim (Bool-cases (is_http (strip s))) [
  | inl e ↦ rw e (record { http = λ u h. let same : strip s ≡ u = ground arith in rw (← same) e })
  | inr e ↦ rw e none-AllHttp
]
http_url-AllHttp (some null) = none-AllHttp
http_url-AllHttp (some (boolean b)) = none-AllHttp
http_url-AllHttp (some (int n)) = none-AllHttp
http_url-AllHttp (some (decimal t)) = none-AllHttp
http_url-AllHttp (some (moment t)) = none-AllHttp
http_url-AllHttp (some (arr xs)) = none-AllHttp
http_url-AllHttp (some (obj d)) = none-AllHttp

direct_url-AllHttp : (d : Dict) → AllHttp (direct_url d)
direct_url-AllHttp d = or_option-AllHttp _ _ (http_url-AllHttp (get "url" d)) (
    or_option-AllHttp _ _ (http_url-AllHttp (get "uri" d)) (
      or_option-AllHttp _ _ (http_url-AllHttp (get "download_url" d))
        (http_url-AllHttp (get "video_url" d))))

mutual
  unfolding from_candidate

  candidate-AllHttp : (c : Json) → AllHttp (from_candidate c)
  candidate-AllHttp (str s) = http_url-AllHttp (some (str s))
  candidate-AllHttp (arr xs) = items-AllHttp xs
  candidate-AllHttp (obj d) = or_option-AllHttp _ _ (direct_url-AllHttp d) (
      or_option-AllHttp _ _ (key-AllHttp "video" d) (
        or_option-AllHttp _ _ (key-AllHttp "file" d) (
          or_option-AllHttp _ _ (key-AllHttp "output" d) (
            or_option-AllHttp _ _ (key-AllHttp "result" d)
              (or_option-AllHttp _ _ (key-AllHttp "data" d) (key-AllHttp "assets" d))))))
  candidate-AllHttp null = none-AllHttp
  candidate-AllHttp (boolean b) = none-AllHttp
  candidate-AllHttp (int n) = none-AllHttp
  candidate-AllHttp (decimal t) = none-AllHttp
  candidate-AllHttp (moment t) = none-AllHttp

  items-AllHttp : (xs : Items) → AllHttp (from_items xs)
  items-AllHttp nil = none-AllHttp
  items-AllHttp (cons x xs) = or_option-AllHttp _ _ (candidate-AllHttp x) (items-AllHttp xs)

  key-AllHttp : (key : String) (d : Dict) → AllHttp (from_key key d)
  key-AllHttp key empty = none-AllHttp
  key-AllHttp key (entry k v d) = elim (Bool-cases (k == key)) [
    | inl e ↦ rw e (candidate-AllHttp v)
    | inr e ↦ rw e (key-AllHttp key d)
  ]

-- Wherever a url is found in a nested value, it begins with http:// or https://.
pub from_candidate-http :
    (candidate : Json) (url : String) → from_candidate candidate ≡ some url → is_http url ≡ true
from_candidate-http candidate url h = AllHttp.http (candidate-AllHttp candidate) url h

type-first :
    (is_jpeg is_webp : Bool) (d : String)
    → or_str (some (image_type is_jpeg is_webp)) d ≡ image_type is_jpeg is_webp
type-first true w d = refl
type-first false true d = refl
type-first false false d = refl

image_type-first :
    (uri : Option String) (d : String)
    → or_str (some (infer_image_content_type uri)) d ≡ infer_image_content_type uri
unfolding infer_image_content_type
image_type-first uri d = type-first _ _ d

module _ {S : Type 0} (http : Transport S) where
  downloaded-unlabelled :
      (uri : String) (s : S) (r : Response)
      → (http.get uri s).0 ≡ returned r
      → leb 400 r.status_code ≡ false
      → r.content_type ≡ none
      → (download_binary_url http uri s).0
        ≡ returned (r.content, infer_image_content_type (some uri))
  unfolding download_binary_url lower
  downloaded-unlabelled uri s r g c t = rw (g, and_then, downloaded, c, t) refl

  -- A video that is served without a content type, from a url that an operation names outside
  -- `generated_videos`, is given the content type of an image: extract_generated_video returns its
  -- bytes with image/png, image/jpeg or image/webp.
  pub extract_generated_video-image_type :
      (operation : Json) (s : S) (uri : String) (r : Response) (b : ℕ) (bs : Bytes)
      → first_video (listed_in operation) ≡ none
      → video_url http operation ≡ some uri
      → (http.get uri s).0 ≡ returned r
      → leb 400 r.status_code ≡ false
      → r.content_type ≡ none
      → r.content ≡ b ∷ bs
      → (extract_generated_video http operation s).0
        ≡ returned (b ∷ bs, infer_image_content_type (some uri), video_summary http operation uri)
  unfolding extract_generated_video
  extract_generated_video-image_type operation s uri r b bs f u g c t e =
      let got : (download_binary_url http uri s).0
          ≡ returned (b ∷ bs, infer_image_content_type (some uri)) =
        rw e at (downloaded-unlabelled uri s r g c t) in
      rw
        (
          extract_generated_video,
          f,
          u,
          ◌>>=◌,
          or_raise,
          got,
          checked_video,
          image_type-first (some uri) (infer_video_content_type (some uri)),
        )
        refl
