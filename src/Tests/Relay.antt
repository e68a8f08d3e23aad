-- ===== src/Tests/Relay.antt =====
-- The client over a relay that answers from a script and serves one file.
use ai_video_replication.Common.{◌+◌, ◌≤◌, ◌≡◌, refl, none, some, List, [], ◌∷◌, String, pos}
use ai_video_replication.Common.Json.{Json, str, obj, nil, empty, entry, get}
use ai_video_replication.Common.Strings.{strip, lower}
use ai_video_replication.Projects.Session.{returned}
use ai_video_replication.Google.{Response, Transport, Client}
use ai_video_replication.Google.Values.{read_value, keyword}
use ai_video_replication.Common.Values.{str_json}
use ai_video_replication.Google.Media.{infer_image_content_type}
use ai_video_replication.Google.Polling.{
  request_json, is_video_operation_done, fetch_video_operation, extract_video_operation_error,
  poll_loop, poll_video_operation, operation_name, timed_out,
}
use ai_video_replication.Google.Polling.Bounds.{counted, poll_video_operation-requests}
use ai_video_replication.Google.Polling.Answers.{
  scripted, HasId, expected, poll_video_operation-first,
}
use ai_video_replication.Google.Download.{
  resolve_video_download_url, extract_generated_video, video_summary,
}
use ai_video_replication.Google.Download.Urls.{extract_generated_video-image_type}
use ai_video_replication.Google.Generate.{
  ImageRequest, VideoRequest, generate_video, generate_image, generate_voice,
}
use ai_video_replication.Google.Generate.Failures.{Sound, HasBytes, IsCoded, generate-Sound}

abbrev shown : Json → String
shown _ = "[...]"

abbrev served : Response
served = record {
  status_code = 200;
  text = "";
  body = none;
  content = 1 ∷ 2 ∷ [];
  content_type = none;
}

abbrev pub relay : Transport (List Json)
relay = record (scripted shown) { get = λ _ answers. (returned served, answers) }

abbrev pending : Json
pending = obj (entry "id" (str "op-1") (entry "status" (str "processing") empty))

abbrev finished : Json
finished = obj (
    entry "id" (str "op-1")
      (entry "status" (str "Completed") (entry "video_url" (str "https://cdn/a.mp4") empty)))

-- The second answer is the first operation that is done.
found_second :
    (poll_video_operation (scripted shown) pending (pos 20) (pos 45) (pending ∷ finished ∷ [])).0
    ≡ returned finished
unfolding poll_video_operation poll_loop is_video_operation_done keyword str_json read_value
    fetch_video_operation request_json extract_video_operation_error get strip lower
found_second = refl

poll_video_operation-requests_example :
    (poll_video_operation (counted relay) pending (pos 20) (pos 1) (pending ∷ finished ∷ [], 0)).1.1
    ≤ 0 + 1
poll_video_operation-requests_example =
    poll_video_operation-requests relay pending (pos 20) (pos 1) (pending ∷ finished ∷ []) 0

has_id : HasId pending
has_id = (str "op-1", unfold read_value get in refl)

poll_video_operation-first_example :
    (poll_video_operation (scripted shown) pending (pos 20) (pos 45) (pending ∷ finished ∷ [])).0
    ≡ expected shown
        (operation_name (scripted shown) pending)
        (timed_out (scripted shown) (operation_name (scripted shown) pending) 45 20)
        45
        pending
        (pending ∷ finished ∷ [])
poll_video_operation-first_example =
    poll_video_operation-first shown pending (pos 20) (pos 45) (pending ∷ finished ∷ []) pending
      refl (has_id, (has_id, ((str "op-1", unfold read_value get in refl), tt)))

extract_generated_video-image_type_example :
    (extract_generated_video relay finished []).0
    ≡ returned (
      1 ∷ 2 ∷ [],
      infer_image_content_type (some "https://cdn/a.mp4"),
      video_summary relay finished "https://cdn/a.mp4",
    )
extract_generated_video-image_type_example =
    extract_generated_video-image_type relay finished [] "https://cdn/a.mp4" served 1 (2 ∷ [])
      (unfold read_value get in refl)
      (unfold read_value get resolve_video_download_url strip in refl) refl refl refl refl

abbrev account : Client
account = record { api_key = "k"; video_model = "veo"; image_model = "imagen"; tts_model = "tts" }

abbrev a_video : VideoRequest
a_video = record {
  prompt = "A bottle";
  negative_prompt = none;
  sample_count = pos 1;
  aspect_ratio = some "9:16";
  duration_seconds = some (pos 8);
  fps = none;
  seed = none;
  resolution = none;
  person_generation = none;
  output_gcs_uri = none;
  enhance_prompt = none;
  compression_quality = none;
  last_frame = none;
  mask = none;
  reference_images = nil;
  poll_interval_seconds = none;
  max_polls = none;
}

abbrev an_image : ImageRequest
an_image = record {
  prompt = "A bottle";
  negative_prompt = none;
  sample_count = pos 1;
  aspect_ratio = some "1:1";
  safety_setting = none;
  person_generation = none;
}

generate-Sound_example :
    Sound HasBytes (generate_video relay account a_video (finished ∷ [])).0
    × Sound (λ _. Unit) (generate_image relay account an_image (finished ∷ [])).0
    × IsCoded (generate_voice relay account "Hello")
generate-Sound_example = generate-Sound relay account a_video an_image "Hello" (finished ∷ [])
