-- ===== src/Google/Polling/Answers.antt =====
-- Waiting for a video, as a search through what the relay answers.
use ai_video_replication.Common.{
  ℕ, zero, suc, ◌≡◌, refl, arith, inl, inr, Bool-cases, if◌then◌else◌, Option, none, some, List, [],
  ◌∷◌, String, ℤ, pos_part, ltb, find, take, length, All,
}
use ai_video_replication.Common.Json.{Json}
use ai_video_replication.Projects.Session.{Exn, failure, Outcome, returned, raised}
use ai_video_replication.Google.{Transport}
use ai_video_replication.Google.Values.{known, read_value}
use ai_video_replication.Common.Values.{or_json}
use ai_video_replication.Google.Polling.{
  request_json, is_video_operation_done, fetch_video_operation, poll_failed, poll_loop,
  poll_video_operation, outcome_of, operation_name, timed_out,
}

abbrev pub closed : Exn
closed = failure "the connection is closed"

-- A relay that gives these operations one by one, and then closes the connection.
abbrev pub scripted : (Json → String) → Transport (List Json)
scripted repr = record {
  request = λ _ _ _ answers. elim answers [
    | [] ↦ (raised closed, [])
    | v ∷ rest ↦ (
      returned
          record { status_code = 200; text = ""; body = some v; content = []; content_type = none },
      rest,
    )
  ];
  get = λ _ answers. (raised closed, answers);
  b64decode = λ _. raised closed;
  repr = repr;
}

-- The operation can be asked for by its id.
abbrev pub HasId : Json → Type 0
HasId operation = (v : Json) × (or_json (read_value operation "id") none ≡ some v)

module _ (repr : Json → String) where
  -- The first operation that is done, among the one at hand and as many as there are polls.
  abbrev pub first_done : ℕ → Json → List Json → Option Json
  first_done n operation answers =
      find (is_video_operation_done (scripted repr)) (take (suc n) (operation ∷ answers))

  abbrev pub expected : String → Exn → ℕ → Json → List Json → Outcome Json
  expected name late n operation answers = elim (first_done n operation answers) [
    | some found ↦ outcome_of (scripted repr) name found
    | none ↦
        if ltb (length answers) n
        then raised (poll_failed (scripted repr) name closed)
        else raised late
  ]

  fetched :
      (operation v : Json) (answers : List Json)
      → HasId operation
      → fetch_video_operation (scripted repr) operation (v ∷ answers) ≡ (returned v, answers)
  unfolding fetch_video_operation request_json
  fetched operation v answers (id, e) = rw (e, fetch_video_operation) refl

  fetched_none :
      (operation : Json)
      → HasId operation
      → fetch_video_operation (scripted repr) operation [] ≡ (raised closed, [])
  unfolding fetch_video_operation request_json
  fetched_none operation (id, e) = rw (e, fetch_video_operation) refl

  poll_loop-expected :
      (name : String) (late : Exn) (n : ℕ) (operation : Json) (answers : List Json)
      → All HasId (operation ∷ answers)
      → (poll_loop (scripted repr) name late n operation answers).0
        ≡ expected name late n operation answers
  unfolding poll_loop
  poll_loop-expected name late zero operation answers h =
      elim (Bool-cases (is_video_operation_done (scripted repr) operation)) [
        | inl d ↦ ground (arith, d)
        | inr d ↦ ground (arith, d)
      ]
  poll_loop-expected name late (suc n) operation [] (h, t) =
      elim (Bool-cases (is_video_operation_done (scripted repr) operation)) [
        | inl d ↦ ground (arith, d)
        | inr d ↦ ground (arith, d, fetched_none operation h)
      ]
  poll_loop-expected name late (suc n) operation (v ∷ answers) (h, t) =
      elim (Bool-cases (is_video_operation_done (scripted repr) operation)) [
        | inl d ↦ ground (arith, d)
        | inr d ↦
            ground
              (arith, d, fetched operation v answers h, poll_loop-expected name late n v answers t)
      ]

  -- If the relay answers each poll with an operation that has an id, then waiting for a video is a
  -- search: it takes the first operation that is done, of the one at hand and the first max_polls
  -- answers, and returns it, or raises its error; if none is done it raises the timeout, or, where the
  -- connection is closed before, the polling error.
  pub poll_video_operation-first :
      (operation : Json) (interval max_polls : ℤ) (answers : List Json) (v : Json)
      → known (some operation) ≡ some v
      → All HasId (operation ∷ answers)
      → (poll_video_operation (scripted repr) operation interval max_polls answers).0 ≡ (
          let name = operation_name (scripted repr) operation in
          expected name
            (timed_out (scripted repr) name (pos_part max_polls) (pos_part interval))
            (pos_part max_polls)
            operation
            answers)
  unfolding poll_video_operation
  poll_video_operation-first operation interval max_polls answers v k h =
      let name = operation_name (scripted repr) operation in
      ground (
        arith,
        k,
        poll_loop-expected name
            (timed_out (scripted repr) name (pos_part max_polls) (pos_part interval))
            (pos_part max_polls) operation answers h,
      )
