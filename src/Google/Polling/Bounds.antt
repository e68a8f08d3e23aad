-- ===== src/Google/Polling/Bounds.antt =====
-- How many requests a wait for a video makes.
use ai_video_replication.Common.{
  ℕ, zero, suc, ◌+◌, ◌≤◌, ◌≡◌, refl, arith, inl, inr, Bool-cases, none, some, String, ℤ, pos_part,
  Option-cases,
}
use ai_video_replication.Common.Json.{Json, null}
use ai_video_replication.Common.Text.{Text}
use ai_video_replication.Projects.Session.{Exn, ◌>>=◌}
use ai_video_replication.Tasks.Effects.{Outcome-cases}
use ai_video_replication.Google.{Transport}
use ai_video_replication.Google.Values.{known, read_value}
use ai_video_replication.Common.Values.{or_json}
use ai_video_replication.Google.Polling.{
  request_json, operation_path, is_video_operation_done, fetch_video_operation, or_raise, poll_loop,
  poll_video_operation, operation_name,
}

-- The same transport, with a count of its requests.
abbrev pub counted : {S : Type 0} → Transport S → Transport (S × ℕ)
counted http = record {
  request = λ method path body s.
      ((http.request method path body s.0).0, ((http.request method path body s.0).1, suc s.1));
  get = λ url s. ((http.get url s.0).0, ((http.get url s.0).1, suc s.1));
  b64decode = http.b64decode;
  repr = http.repr;
}

module _ {S : Type 0} (http : Transport S) where
  request_json-one :
      (method : String) (path : Text) (body : Json) (s : S × ℕ)
      → (request_json (counted http) method path body s).1.1 ≡ suc s.1
  unfolding request_json
  request_json-one method path body s = refl

  fetch-one :
      (operation : Json) (s : S × ℕ)
      → (fetch_video_operation (counted http) operation s).1.1 ≤ suc s.1
  unfolding fetch_video_operation
  fetch-one operation s = elim (Option-cases (or_json (read_value operation "id") none)) [
    | inr (v, e) ↦
        rw (e, fetch_video_operation)
          (omega (arith, request_json-one "GET" (operation_path (counted http) v) null s))
    | inl e ↦ elim (Option-cases (or_json (read_value operation "name") none)) [
      | inr (v, f) ↦
          rw (e, f, fetch_video_operation)
            (omega (arith, request_json-one "GET" (operation_path (counted http) v) null s))
      | inl f ↦ rw (e, f, fetch_video_operation) (omega arith)
    ]
  ]

  poll_loop-requests :
      (name : String) (late : Exn) (n : ℕ) (operation : Json) (s : S × ℕ)
      → (poll_loop (counted http) name late n operation s).1.1 ≤ s.1 + n
  unfolding poll_loop
  poll_loop-requests name late zero operation s =
      elim (Bool-cases (is_video_operation_done (counted http) operation)) [
        | inl d ↦ rw d (omega arith)
        | inr d ↦ rw d (omega arith)
      ]
  poll_loop-requests name late (suc n) operation s =
      elim (Bool-cases (is_video_operation_done (counted http) operation)) [
        | inl d ↦ rw d (omega arith)
        | inr d ↦
            let f = fetch_video_operation (counted http) operation s in
            elim (Outcome-cases f.0) [
              | inr (x, e) ↦ rw (d, ◌>>=◌, or_raise, e) (omega (arith, fetch-one operation s))
              | inl (next, e) ↦
                  rw (d, ◌>>=◌, or_raise, e)
                    (omega (arith, fetch-one operation s, poll_loop-requests name late n next f.1))
            ]
      ]

  -- A wait for a video ends, and makes at most max_polls requests, none if that number is
  -- negative, whatever the relay answers.
  pub poll_video_operation-requests :
      (operation : Json) (interval max_polls : ℤ) (s : S) (n : ℕ)
      → (poll_video_operation (counted http) operation interval max_polls (s, n)).1.1
        ≤ n + pos_part max_polls
  unfolding poll_video_operation
  poll_video_operation-requests operation interval max_polls s n =
      elim (Option-cases (known (some operation))) [
        | inl e ↦ rw (e, poll_video_operation) (omega arith)
        | inr (v, e) ↦
            rw (e, poll_video_operation)
              (poll_loop-requests (operation_name (counted http) operation) _ (pos_part max_polls)
                operation (s, n))
      ]
