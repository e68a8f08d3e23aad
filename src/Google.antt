-- ===== src/Google.antt =====
-- app/providers/google/client.py: the client of the relay that makes images, videos and voices. What
-- it receives are JSON values, as `response.json()` gives them.
pub mod Values
pub mod Media
pub mod Polling
pub mod Download
pub mod Images
pub mod Generate
use ai_video_replication.Common.{ℕ, Option, none, some, List, String, ℤ}
use ai_video_replication.Common.Json.{Json, Dict}
use ai_video_replication.Common.Text.{Text}
use ai_video_replication.Projects.Session.{Exn, provider_error, Outcome, M}
use ai_video_replication.Tasks.{Bytes}

-- httpx's response: `body` is none where `json()` raises, and `content` is `response.content`.
pub record Response : Type 0 where
  pub status_code : ℕ
  pub text : String
  pub body : Option Json
  pub content : Bytes
  pub content_type : Option String

-- httpx's client over the state of the network, base64's decoder, and the text that `str()` makes of
-- a list or a dict.
pub record Transport (S : Type 0) : Type 0 where
  pub request : String → Text → Json → S → Outcome Response × S
  pub get : String → S → Outcome Response × S
  pub b64decode : String → Outcome Bytes
  pub repr : Json → String

-- `GoogleProviderClient`, as it is built
pub record Client : Type 0 where
  pub api_key : String
  pub video_model : String
  pub image_model : String
  pub tts_model : String

-- `GoogleGeneratedImage`, `GoogleGeneratedVideo` and `GoogleGeneratedVoice`
pub record Generated : Type 0 where
  pub content : Bytes
  pub content_type : String
  pub provider_payload : Dict

abbrev pub invalid_response : String → Exn
invalid_response message = provider_error "google_provider_response_invalid" message
