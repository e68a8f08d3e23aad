-- ===== src/Tasks/Stored.antt =====
-- What a task stores of an executor's result.
use ai_video_replication.Common.{
  ◌≡◌, ◌≤◌, refl, arith, ◌⊎◌, inl, inr, true, Bool-cases, Option, none, some, [], ◌∷◌, String, ◌==◌,
  eq_iff, length, Option-cases,
}
use ai_video_replication.Projects.Session.{returned}
use ai_video_replication.Tasks.{
  Bytes, Payload, bytes, bytearray, memoryview, text, other, ExecutionResult, AssetPlan,
}
use ai_video_replication.Tasks.Content.{
  asset_requires_binary_payload, stripped_status, status_error, payload_error, planned_type,
  result_error, empty_error, validate_execution_result, resolve_materialization_payload,
}

pub status_error-none :
    (task_name status : String) → status_error task_name status ≡ none → status ≡ "succeeded"
status_error-none task_name status h = elim (Bool-cases (status == "succeeded_stub")) [
  | inl e ↦ absurd (let t = rw e at h in cc)
  | inr e ↦ elim (Bool-cases (status == "succeeded")) [
    | inl f ↦ (eq_iff status "succeeded").0 f
    | inr f ↦ absurd (let t = rw (e, f) at h in cc)
  ]
]

empty_error-none :
    (task_name content_type : String) (b : Bytes)
    → empty_error task_name content_type b ≡ none
    → 1 ≤ length b
empty_error-none task_name content_type [] h = cc
empty_error-none task_name content_type (x ∷ b) h = ground arith

-- The bytes of a payload that passes the checks.
payload_error-none :
    (task_name content_type : String) (o : Option Payload)
    → payload_error task_name content_type o ≡ none
    → (b : Bytes) × ((o ≡ some (bytes b)) ⊎ (o ≡ some (bytearray b)) ⊎ (o ≡ some (memoryview b)))
      × (1 ≤ length b)
payload_error-none task_name content_type none h = cc
payload_error-none task_name content_type (some (bytes b)) h =
    (b, inl refl, empty_error-none task_name content_type b h)
payload_error-none task_name content_type (some (bytearray b)) h =
    (b, inr (inl refl), empty_error-none task_name content_type b h)
payload_error-none task_name content_type (some (memoryview b)) h =
    (b, inr (inr refl), empty_error-none task_name content_type b h)
payload_error-none task_name content_type (some (text s)) h = cc
payload_error-none task_name content_type (some other) h = cc

pub passes :
    (r : ExecutionResult) (task_name : String) (plan : Option AssetPlan) (u : Unit {0})
    → validate_execution_result r task_name plan ≡ returned u
    → result_error r task_name plan ≡ none
unfolding validate_execution_result
passes r task_name plan u h = elim (Option-cases (result_error r task_name plan)) [
  | inl e ↦ e
  | inr (x, e) ↦ absurd (let t = rw (e, validate_execution_result) at h in cc)
]

pub passes-status :
    (r : ExecutionResult) (task_name : String) (plan : Option AssetPlan)
    → result_error r task_name plan ≡ none
    → (status_error task_name (stripped_status r) ≡ none)
passes-status r task_name plan h =
    elim (Option-cases (status_error task_name (stripped_status r))) [
      | inl e ↦ e
      | inr (x, e) ↦ absurd (let t = rw (result_error, e) at h in cc)
    ]

passes-payload :
    (r : ExecutionResult) (task_name : String) (plan : Option AssetPlan)
    → result_error r task_name plan ≡ none
    → asset_requires_binary_payload plan ≡ true
    → payload_error task_name (planned_type plan) r.binary_payload ≡ none
passes-payload r task_name plan h b = rw (result_error, passes-status r task_name plan h, b) at h

-- A result that passes validation has the status `succeeded`, once stripped, and where the plan is
-- for an image, a video or a sound, its binary payload is bytes, a bytearray or a memoryview, the
-- bytes to store are exactly the bytes of that payload, and there is at least one.
pub validate_execution_result-payload :
    (r : ExecutionResult) (task_name : String) (asset_plan : AssetPlan) (u : Unit {0})
    → validate_execution_result r task_name (some asset_plan) ≡ returned u
    → (stripped_status r ≡ "succeeded")
      × (asset_requires_binary_payload (some asset_plan) ≡ true
          → (b : Bytes) × ((r.binary_payload ≡ some (bytes b))
              ⊎ (r.binary_payload ≡ some (bytearray b))
              ⊎ (r.binary_payload ≡ some (memoryview b)))
            × (resolve_materialization_payload r asset_plan ≡ returned b)
            × (1 ≤ length b))
validate_execution_result-payload r task_name asset_plan u h =
    let n = passes r task_name (some asset_plan) u h in
    (
      status_error-none task_name (stripped_status r)
          (passes-status r task_name (some asset_plan) n),
      λ binary. go (
          payload_error-none task_name asset_plan.content_type r.binary_payload
            (passes-payload r task_name (some asset_plan) n binary)),
    )
  where
    go :
        ((b : Bytes) × ((r.binary_payload ≡ some (bytes b))
            ⊎ (r.binary_payload ≡ some (bytearray b))
            ⊎ (r.binary_payload ≡ some (memoryview b)))
          × (1 ≤ length b))
        → (b : Bytes) × ((r.binary_payload ≡ some (bytes b))
            ⊎ (r.binary_payload ≡ some (bytearray b))
            ⊎ (r.binary_payload ≡ some (memoryview b)))
          × (resolve_materialization_payload r asset_plan ≡ returned b)
          × (1 ≤ length b)
    go (b, inl e, l) = (b, inl e, unfold resolve_materialization_payload in rw e refl, l)
    go (b, inr (inl e), l) =
        (b, inr (inl e), unfold resolve_materialization_payload in rw e refl, l)
    go (b, inr (inr e), l) =
        (b, inr (inr e), unfold resolve_materialization_payload in rw e refl, l)
