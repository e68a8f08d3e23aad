-- ===== src/Tasks/Placement.antt =====
-- Where a task puts the file of an executor's result.
use ai_video_replication.Common.{
  ◌≡◌, refl, arith, ◌⊎◌, inl, inr, true, false, Bool-cases, Option, some, String, ◌==◌, find,
  Option-cases, or_str,
}
use ai_video_replication.Common.Json.{Dict}
use ai_video_replication.Store.{opt_text_fits}
use ai_video_replication.Aggregate.{Job}
use ai_video_replication.Projects.{Asset}
use ai_video_replication.Projects.Session.{Outcome, returned, raised, ◌>>=◌, and_then}
use ai_video_replication.Tasks.{Bytes, ExecutionResult, AssetPlan, Written, World, Surroundings}
use ai_video_replication.Tasks.Content.{resolve_materialization_payload, resolve_asset_content_type}
use ai_video_replication.Tasks.Storage.{
  MaterializedObject, object_exists, stat_artifact, materialize_bytes,
}
use ai_video_replication.Tasks.Assets.{Target, references_exist, stored_at, row_metadata}
use ai_video_replication.Tasks.Materialize.{
  Materialization, Registration, registration_fits, written, write_asset, uploaded, fresh_write,
  reconciled, short_circuit, place, register_at, register_generated_asset, asset_registration,
  upload, reconcile_or_upload, store_asset, materialize_generated_asset,
}
use ai_video_replication.Tasks.Effects.{Outcome-cases}

module _ {S : Type 0} (env : Surroundings S) where
  registered-status :
      (t : Target) (d : Dict) (g : Registration) (w : World S) (a : Asset)
      → (register_at env t d g w).0 ≡ returned a
      → (a.status ≡ g.status) × ((register_at env t d g w).1.objects ≡ w.objects)
  registered-status t d g w a h = elim (Bool-cases (registration_fits t g)) [
    | inr e ↦ absurd (ground (arith, e))
    | inl e ↦ elim (Bool-cases (references_exist w.db t)) [
      | inr k ↦ absurd (ground (arith, e, k))
      | inl k ↦ elim (Option-cases (find (stored_at t.bucket_name t.object_key) w.db.assets)) [
        | inl f ↦ (ground (arith, e, k, f), ground (arith, e, k, f))
        | inr (b, f) ↦ (ground (arith, e, k, f), ground (arith, e, k, f))
      ]
    ]
  ]

  register-status :
      (project_id version : String) (job : Job) (x : Option ExecutionResult) (g : Registration)
      (w : World S) (a : Asset)
      → (register_generated_asset env project_id version job x g w).0 ≡ returned a
      → (a.status ≡ g.status)
        × ((register_generated_asset env project_id version job x g w).1.objects ≡ w.objects)
  unfolding register_generated_asset
  register-status project_id version job x g w a h =
      elim (Outcome-cases (place env project_id version job x g w).0) [
        | inl (t, e) ↦
            let made : (register_at env t (row_metadata version job) g w).0 ≡ returned a =
              ground (arith, e) in
            let s = registered-status t (row_metadata version job) g w a made in
            (s.0, ground (arith, e, s.1))
        | inr (y, e) ↦ absurd (ground (arith, e))
      ]

  -- The objects, where they are those that put_object leaves for the payload at the place of an asset.
  abbrev pub Uploaded : ExecutionResult → AssetPlan → Asset → S → S → Type 0
  Uploaded r p a before after =
      (b : Bytes) × (content_type : String) × (stored : Written) × (resolve_materialization_payload
          r p
        ≡ returned b)
      × (env.put_object a.bucket_name a.object_key b content_type before ≡ (returned stored, after))

  -- Whether a file was uploaded, or was in the store before.
  abbrev pub Placed :
      ExecutionResult → AssetPlan → S → Outcome (Asset × Materialization) × World S → Type 0
  Placed r p before (raised e, after) = Unit
  Placed r p before (returned (a, m), after) =
      (a.status ≡ "materialized")
      × (((m.idempotency ≡ "fresh_write")
            × (object_exists env a.bucket_name a.object_key before ≡ returned false)
            × Uploaded r p a before after.objects)
          ⊎ ((m.idempotency ≡ "object_store_short_circuit")
              × (object_exists env a.bucket_name a.object_key before ≡ returned true)
              × (after.objects ≡ before)))

  Placed-same :
      (r : ExecutionResult) (p : AssetPlan) (x : Outcome (Asset × Materialization) × World S)
      (b c : S)
      → b ≡ c
      → Placed r p b x
      → Placed r p c x
  Placed-same r p x b c e h = rw (← e) h

  written-Placed :
      (r : ExecutionResult) (p : AssetPlan) (a : Asset) (m : Materialization) (before : S)
      (w : World S)
      → Placed r p before (returned (a, m), write_asset a w)
      → Placed r p before (written a m w)
  written-Placed r p a m before w h = elim (Bool-cases (opt_text_fits 100 a.content_type)) [
    | inl e ↦ rw (e, written) h
    | inr e ↦ rw (e, written) tt
  ]

  put-Uploaded :
      (r : ExecutionResult) (p : AssetPlan) (a : Asset) (b : Bytes) (content_type : String)
      (w : World S) (stored : MaterializedObject)
      → resolve_materialization_payload r p ≡ returned b
      → (materialize_bytes env a.bucket_name a.object_key b content_type w).0 ≡ returned stored
      → Uploaded r p a w.objects
          (materialize_bytes env a.bucket_name a.object_key b content_type w).1.objects
  unfolding materialize_bytes
  put-Uploaded r p a b content_type w stored h e =
      let x = env.put_object a.bucket_name a.object_key b content_type w.objects in
      elim (Outcome-cases x.0) [
        | inl (result, f) ↦ (b, content_type, result, h, rw (← f) refl)
        | inr (y, f) ↦ absurd (let g = rw (f, and_then) at e in cc)
      ]

  upload-Placed :
      (r : ExecutionResult) (p : AssetPlan) (c : String) (a : Asset) (w : World S)
      → object_exists env a.bucket_name a.object_key w.objects ≡ returned false
      → Placed r p w.objects (upload env r p c a w)
  upload-Placed r p c a w h = elim (Outcome-cases (resolve_materialization_payload r p)) [
    | inr (x, e) ↦ rw (e, ◌>>=◌) tt
    | inl (b, e) ↦
        let m = materialize_bytes env a.bucket_name a.object_key b (or_str a.content_type c) w in
        elim (Outcome-cases m.0) [
          | inr (x, f) ↦ rw (e, ◌>>=◌, f) tt
          | inl (stored, f) ↦
              rw (e, ◌>>=◌, f)
                (written-Placed r p (uploaded stored a) (fresh_write stored a) w.objects m.1 (
                  refl,
                  inl (refl, h, put-Uploaded r p a b (or_str a.content_type c) w stored e f),
                ))
        ]
  ]

  reconcile_or_upload-Placed :
      (r : ExecutionResult) (p : AssetPlan) (c : String) (a : Asset) (w : World S)
      → Placed r p w.objects (reconcile_or_upload env r p c a w)
  reconcile_or_upload-Placed r p c a w =
      elim (Outcome-cases (object_exists env a.bucket_name a.object_key w.objects)) [
        | inr (x, e) ↦ rw (e, ◌>>=◌) tt
        | inl (false, e) ↦ rw (e, ◌>>=◌) (upload-Placed r p c a w e)
        | inl (true, e) ↦
            elim (Outcome-cases (stat_artifact env a.bucket_name a.object_key w.objects)) [
              | inr (x, f) ↦ rw (e, ◌>>=◌, f) tt
              | inl (o, f) ↦
                  rw (e, ◌>>=◌, f)
                    (written-Placed r p (reconciled o a) (short_circuit o a) w.objects w
                      (refl, inr (refl, e, refl)))
            ]
      ]

  -- When _materialize_generated_asset returns, the asset is materialized, and there are two cases.
  -- Either object_exists found nothing at the asset's bucket and key before, put_object was called for
  -- that place with the bytes of the result's payload, and the objects are those that it left; or
  -- object_exists found an object there before and the object store is as it was. The answer names
  -- the case, and asset_already_materialized is never given.
  pub materialize_generated_asset-Placed :
      (project_id version : String) (job : Job) (p : AssetPlan) (r : ExecutionResult) (w : World S)
      → Placed r p w.objects (materialize_generated_asset env project_id version job p r w)
  unfolding materialize_generated_asset
  materialize_generated_asset-Placed project_id version job p r w =
      let g = asset_registration env r p in
      let made = register_generated_asset env project_id version job (some r) g w in
      elim (Outcome-cases made.0) [
        | inr (x, e) ↦ rw (e, ◌>>=◌) tt
        | inl (a, e) ↦
            let (registered, kept) = register-status project_id version job (some r) g w a e in
            let not_yet : (a.status == "materialized") ≡ false = rw registered refl in
            let same : materialize_generated_asset env project_id version job p r w
                ≡ reconcile_or_upload env r p (resolve_asset_content_type r p) a made.1 =
              rw (materialize_generated_asset, ◌>>=◌, e, store_asset, not_yet) refl in
            rw same (
              Placed-same r p _ made.1.objects w.objects kept
                (reconcile_or_upload-Placed r p (resolve_asset_content_type r p) a made.1))
      ]
