-- ===== src/Google/Generate/Failures.antt =====
-- How the operations of the client end.
use ai_video_replication.Common.{
  ◌≡◌, ◌≤◌, refl, arith, inl, inr, Bool, true, false, if◌then◌else◌, not, none, some, [], ◌∷◌,
  String, length, truthy, Option-cases,
}
use ai_video_replication.Common.Json.{Json, obj, Dict}
use ai_video_replication.Common.Strings.{strip}
use ai_video_replication.Common.Text.{codes}
use ai_video_replication.Projects.Session.{
  Exn, provider_error, value_error, s3_error, failure, Outcome, returned, raised, M, ◌>>=◌, lift,
}
use ai_video_replication.Tasks.{Bytes}
use ai_video_replication.Tasks.Effects.{Outcome-cases}
use ai_video_replication.Google.{Transport, Client, Generated}
use ai_video_replication.Google.Values.{known, read_value, read_or}
use ai_video_replication.Common.Values.{or_json}
use ai_video_replication.Google.Polling.{request_json, poll_video_operation, or_raise}
use ai_video_replication.Google.Download.{
  listed_in, listed_video, first_video, video_url, download_binary_url, checked_video,
  extract_generated_video,
}
use ai_video_replication.Google.Generate.{
  ImageRequest, VideoRequest, as_provider_error, generated, relayed, relay_image, relay_video,
  image_about, generate_image, video_payload, video_about, interval_of, polls_of, generate_video,
  generate_voice,
}

-- An exception with a code and a message of its own.
abbrev pub IsCoded : Exn → Type 0
IsCoded e = (code : String) × (message : String) × (e ≡ provider_error code message)

as_provider_error-IsCoded :
    (code message : String) (e : Exn) → IsCoded (as_provider_error code message e)
as_provider_error-IsCoded code message (provider_error c m) = (c, m, refl)
as_provider_error-IsCoded code message (value_error shown) = (code, _, refl)
as_provider_error-IsCoded code message (s3_error c m shown) = (code, _, refl)
as_provider_error-IsCoded code message (failure shown) = (code, _, refl)

-- An outcome with bytes, and otherwise with a coded exception.
abbrev pub Sound : {A : Type 0} → (A → Type 0) → Outcome A → Type 0
Sound P (returned a) = P a
Sound P (raised e) = IsCoded e

abbrev pub HasBytes : Generated → Type 0
HasBytes g = 1 ≤ length g.content

module _ {S : Type 0} (http : Transport S) where
  -- Only what is not empty passes the checks of a video.
  record Filled (o : Outcome (Bytes × String × Dict)) : Type 0 where
    filled : (b : Bytes) (t : String) (d : Dict) → o ≡ returned (b, t, d) → 1 ≤ length b

  raised-Filled : (e : Exn) → Filled (raised e)
  raised-Filled e = record { filled = λ b t d h. cc }

  checked_video-Filled :
      (operation : Json) (uri : String) (b : Bytes) (t : String)
      → Filled (checked_video http operation uri (b, t))
  checked_video-Filled operation uri [] t = raised-Filled _
  checked_video-Filled operation uri (x ∷ b) t = record { filled = λ c u d h. ground arith }

  listed_video-Filled : (first_generated : Json) → Filled (listed_video http first_generated)
  listed_video-Filled first_generated =
      elim (Option-cases (known (some (read_or first_generated "video" first_generated)))) [
        | inl e ↦ rw (e, listed_video) (raised-Filled _)
        | inr (video, e) ↦ elim (Option-cases (or_json (read_value video "uri") none)) [
          | inl f ↦ rw (e, listed_video, f) (raised-Filled _)
          | inr (uri, f) ↦ rw (e, listed_video, f) (raised-Filled _)
        ]
      ]

  extract_generated_video-Filled :
      (operation : Json) (s : S) → Filled (extract_generated_video http operation s).0
  unfolding extract_generated_video
  extract_generated_video-Filled operation s =
      elim (Option-cases (first_video (listed_in operation))) [
        | inr (v, e) ↦ rw (extract_generated_video, e) (listed_video-Filled v)
        | inl e ↦ elim (Option-cases (video_url http operation)) [
          | inl f ↦ rw (extract_generated_video, e, f) (raised-Filled _)
          | inr (uri, f) ↦ elim (Outcome-cases (download_binary_url http uri s).0) [
            | inl ((b, t), g) ↦
                rw (extract_generated_video, e, f, ◌>>=◌, or_raise, g)
                  (checked_video-Filled operation uri b t)
            | inr (x, g) ↦ rw (extract_generated_video, e, f, ◌>>=◌, or_raise, g) (raised-Filled _)
          ]
        ]
      ]

  bind-Filled :
      {A : Type 0} (m : M S A) (k : A → M S (Bytes × String × Dict)) (s : S)
      → ((a : A) (t : S) → Filled (k a t).0)
      → Filled ((m >>= k) s).0
  bind-Filled m k s h = elim (Outcome-cases (m s).0) [
    | inl (a, e) ↦ rw (◌>>=◌, e) (h a (m s).1)
    | inr (x, e) ↦ rw (◌>>=◌, e) (raised-Filled x)
  ]

  relay_video-Filled :
      (client : Client) (q : VideoRequest) (s : S) → Filled (relay_video http client q s).0
  relay_video-Filled client q s =
      let poll : Json → M S Json = λ operation.
        poll_video_operation http operation (interval_of http client q) (polls_of http client q) in
      bind-Filled
        (request_json http "POST" (codes "/v1/video/create") (obj (video_payload http client q)))
        (λ operation. poll operation >>= extract_generated_video http) s
        λ operation t.
          bind-Filled (poll operation) (extract_generated_video http) t
            extract_generated_video-Filled

  -- The last step of an operation: its exceptions become coded, and its bytes are kept.
  relayed-Sound :
      (client : Client) (code message : String) (about : Dict) (m : M S (Bytes × String × Dict))
      (s : S)
      → Filled (m s).0
      → Sound HasBytes (relayed http client code message about m s).0
  relayed-Sound client code message about m s h = elim (Outcome-cases (m s).0) [
    | inl ((b, t, d), e) ↦ rw (relayed, ◌>>=◌, or_raise, e, generated) (Filled.filled h b t d e)
    | inr (x, e) ↦ rw (relayed, ◌>>=◌, or_raise, e) (as_provider_error-IsCoded code message x)
  ]

  relayed-coded :
      (client : Client) (code message : String) (about : Dict) (m : M S (Bytes × String × Dict))
      (s : S)
      → Sound (λ _. Unit) (relayed http client code message about m s).0
  relayed-coded client code message about m s = elim (Outcome-cases (m s).0) [
    | inl ((b, t, d), e) ↦ rw (relayed, ◌>>=◌, or_raise, e, generated) tt
    | inr (x, e) ↦ rw (relayed, ◌>>=◌, or_raise, e) (as_provider_error-IsCoded code message x)
  ]

  if-Sound :
      (P : Generated → Type 0) (b : Bool) (code message : String) (m : M S Generated) (s : S)
      → Sound P (m s).0
      → Sound P ((if b then lift (raised (provider_error code message)) else m) s).0
  if-Sound P true code message m s h = (code, message, refl)
  if-Sound P false code message m s h = h

  if-IsCoded :
      (b : Bool) (code message : String) (e : Exn)
      → IsCoded e
      → IsCoded (if b then provider_error code message else e)
  if-IsCoded true code message e h = (code, message, refl)
  if-IsCoded false code message e h = h

  -- Whatever the relay does: when generate_video returns, the video has bytes, and when generate_video
  -- or generate_image raises, the exception is a GoogleProviderError with a code and a message;
  -- generate_voice always raises such an exception.
  pub generate-Sound :
      (client : Client) (video : VideoRequest) (image : ImageRequest) (text : String) (s : S)
      → Sound HasBytes (generate_video http client video s).0
        × Sound (λ _. Unit) (generate_image http client image s).0
        × IsCoded (generate_voice http client text)
  unfolding generate_video generate_image generate_voice
  generate-Sound client video image text s = (
    if-Sound HasBytes (not (truthy client.api_key)) _ _ _ s (
        if-Sound HasBytes (not (truthy client.video_model)) _ _ _ s (
          if-Sound HasBytes (not (truthy (strip video.prompt))) _ _ _ s (
            relayed-Sound client _ _ (video_about http client video) (relay_video http client video)
              s (relay_video-Filled client video s)))),
    if-Sound (λ _. Unit) (not (truthy client.api_key)) _ _ _ s
        (if-Sound (λ _. Unit) (not (truthy client.image_model)) _ _ _ s
          (relayed-coded client _ _ (image_about http client image) (relay_image http client image)
            s)),
    if-IsCoded (not (truthy client.api_key)) _ _ _ (
        if-IsCoded (not (truthy client.tts_model)) _ _ _
          (if-IsCoded (not (truthy (strip text))) _ _ _ (_, _, refl))),
  )
