-- ===== src/Google/Polling.antt =====
-- app/providers/google/client.py: waiting for a video operation. A sleep changes nothing here, and an
-- interval is a whole number of seconds.
pub mod Bounds
pub mod Answers
use ai_video_replication.Common.{
  ℕ, zero, suc, Bool, true, false, ◌||◌, if◌then◌else◌, Option, none, some, List, [], ◌∷◌, ◌++◌,
  String, ◌==◌, leb, nat_eq, ℤ, pos, pos_part,
}
use Prim.Native.Nat.{◌+◌, ◌/◌, ◌%◌}
use ai_video_replication.Common.Json.{Json, null, str, obj, empty, entry}
use ai_video_replication.Common.Strings.{◌<>◌, str_of, str_ℕ, utf8}
use ai_video_replication.Common.Text.{Text, codes}
use ai_video_replication.Projects.Session.{
  Exn, provider_error, failure, Outcome, returned, raised, and_then, M, ◌>>=◌, ◌>>◌, pure, lift,
}
use ai_video_replication.Tasks.{Bytes}
use ai_video_replication.Tasks.Content.{shown_as}
use ai_video_replication.Common.Values.{truthy_json}
use ai_video_replication.Google.{Response, Transport, invalid_response}
use ai_video_replication.Google.Values.{known, read_value, read_or, keyword}
use ai_video_replication.Common.Values.{or_json, str_json}

abbrev pub failure_statuses : String → Bool
failure_statuses s =
    s == "failed"
    || (s == "error"
        || (s == "cancelled" || (s == "canceled" || (s == "rejected" || s == "expired"))))

abbrev pub final_statuses : String → Bool
final_statuses s =
    s == "succeeded"
    || (s == "completed"
        || (s == "success" || (s == "done" || (s == "ready" || failure_statuses s))))

-- A byte as it stands in a quoted path: letters, digits and `_.-~` are kept.
abbrev pub is_unreserved : ℕ → Bool
is_unreserved c =
    in_range 65 90 c
    || (in_range 97 122 c
        || (in_range 48 57 c
            || (nat_eq c b'_' || (nat_eq c b'.' || (nat_eq c b'-' || nat_eq c b'~')))))
  where
    in_range : ℕ → ℕ → ℕ → Bool
    in_range a b c = if leb a c then leb c b else false

abbrev pub hex_digit : ℕ → ℕ
hex_digit n = if leb 10 n then 55 + n else 48 + n

-- `quote(s, safe="")` of the bytes of a text
unfoldable pub quote_bytes : Bytes → Text
quote_bytes [] = []
quote_bytes (c ∷ bs) =
    let rest = quote_bytes bs in
    if is_unreserved c then c ∷ rest else b'%' ∷ hex_digit (c / 16) ∷ hex_digit (c % 16) ∷ rest

module _ {S : Type 0} (http : Transport S) where
  -- `_request_json`
  unfoldable pub request_json : String → Text → Json → M S Json
  request_json method path body s =
      let (response, s') = http.request method path body s in
      (
        and_then response λ (r : Response).
            if leb 400 r.status_code
            then raised (
                failure
                  ("HTTP " <> str_ℕ r.status_code <> " calling " <> str_of path <> ": " <> r.text))
            else elim r.body [
              | none ↦ raised (failure ("Relay returned non-JSON payload for " <> str_of path))
              | some v ↦ returned v
            ],
        s',
      )

  unfoldable pub is_video_operation_done : Json → Bool
  is_video_operation_done operation =
      truthy_json (read_or operation "done" null)
      || final_statuses (keyword http.repr (read_value operation "status"))

  -- What a failed operation says of itself.
  abbrev pub status_error : Json → String → Json
  status_error operation status =
      let message = or_json (read_value operation "message") (
        or_json (read_value operation "detail")
          (or_json (read_value operation "last_error") (some (str status)))) in
      let m : Json = elim message [ none ↦ str status | some v ↦ v ] in
      obj (
        entry "code" (read_or operation "code" (str "unknown"))
          (entry "message" (read_or m "message" (str (str_json http.repr m))) empty))

  unfoldable pub extract_video_operation_error : Json → Option Json
  extract_video_operation_error operation = elim (known (read_value operation "error")) [
    | some error ↦ some error
    | none ↦
        let status = keyword http.repr (read_value operation "status") in
        if failure_statuses status then some (status_error operation status) else none
  ]

  abbrev pub operation_path : Json → Text
  operation_path id = codes "/v1/videos/" ++ quote_bytes (utf8 (str_json http.repr id))

  -- `_fetch_video_operation` over httpx's client, which has `request` and no `operations`
  unfoldable pub fetch_video_operation : Json → M S Json
  fetch_video_operation operation = elim (or_json (read_value operation "id") none) [
    | some id ↦ request_json "GET" (operation_path id) null
    | none ↦ elim (or_json (read_value operation "name") none) [
      | some name ↦ request_json "GET" (operation_path name) null
      | none ↦ lift (raised (failure "video operation id is missing"))
    ]
  ]

  abbrev pub operation_name : Json → String
  operation_name operation =
      str_json http.repr
        (elim (or_json (read_value operation "name")
          (some (read_or operation "id" (str "unknown")))) [ none ↦ str "unknown" | some v ↦ v ])

  -- The exception for an operation that says that it has failed.
  abbrev pub operation_failed : String → Json → Json → Exn
  operation_failed name operation error = provider_error "google_video_generation_failed" (
      "Google video generation operation failed (operation="
      <> name
      <> ", code="
      <> str_json http.repr (read_or error "code" (read_or operation "code" (str "unknown")))
      <> "): "
      <> str_json http.repr (read_or error "message" (str (str_json http.repr error))))

  abbrev pub timed_out : String → ℕ → ℕ → Exn
  timed_out name max_polls interval = provider_error "google_video_generation_timeout" (
      "Google video generation did not complete within poll limit (operation="
      <> name
      <> ", max_polls="
      <> str_ℕ max_polls
      <> ", poll_interval_seconds="
      <> str_ℕ interval
      <> ".0).")

  abbrev pub poll_failed : String → Exn → Exn
  poll_failed name e =
      provider_error "google_video_poll_failed"
        ("Google video generation operation polling failed for " <> name <> ": " <> shown_as e)

  -- `try: ... except Exception as exc: raise ... from exc`
  abbrev pub or_raise : {A : Type 0} → (Exn → Exn) → M S A → M S A
  or_raise f m s = (elim (m s).0 [ returned a ↦ returned a | raised e ↦ raised (f e) ], (m s).1)

  -- What an operation that is done gives.
  abbrev pub outcome_of : String → Json → Outcome Json
  outcome_of name operation = elim (extract_video_operation_error operation) [
    | some error ↦ raised (operation_failed name operation error)
    | none ↦ returned operation
  ]

  -- The loop, with `n` polls left.
  unfoldable pub poll_loop : String → Exn → ℕ → Json → M S Json
  poll_loop name late zero operation =
      if is_video_operation_done operation
      then lift (outcome_of name operation)
      else lift (raised late)
  poll_loop name late (suc n) operation =
      if is_video_operation_done operation
      then lift (outcome_of name operation)
      else (or_raise (poll_failed name) (fetch_video_operation operation) >>= poll_loop name late n)

  unfoldable pub poll_video_operation : Json → ℤ → ℤ → M S Json
  poll_video_operation operation interval max_polls = elim (known (some operation)) [
    | none ↦ lift (raised (invalid_response "Google video generation did not return an operation."))
    | some _ ↦
        let name = operation_name operation in
        poll_loop name (timed_out name (pos_part max_polls) (pos_part interval))
          (pos_part max_polls) operation
  ]
