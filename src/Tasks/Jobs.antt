-- ===== src/Tasks/Jobs.antt =====
-- Storing the asset of a run leaves the table of jobs alone, also where it raises.
use ai_video_replication.Common.{
  ◌≡◌, refl, arith, ◌∙◌, inl, inr, Bool, true, false, if◌then◌else◌, Option, none, some, String,
  ◌==◌, find, Option-cases, Bool-cases,
}
use ai_video_replication.Common.Json.{Dict}
use ai_video_replication.Common.Text.{Text}
use ai_video_replication.Store.{opt_text_fits}
use ai_video_replication.Aggregate.{Job}
use ai_video_replication.Projects.{Asset}
use ai_video_replication.Projects.Session.{Outcome, returned, M, ◌>>=◌, lift}
use ai_video_replication.Tasks.{Bytes, ExecutionResult, AssetPlan, World, Surroundings}
use ai_video_replication.Tasks.Content.{resolve_asset_content_type, resolve_materialization_payload}
use ai_video_replication.Tasks.Storage.{object_exists, stat_artifact, materialize_bytes}
use ai_video_replication.Tasks.Assets.{Target, references_exist, stored_at, row_metadata}
use ai_video_replication.Tasks.Materialize.{
  Registration, registration_fits, Materialization, place, add_or_update, register_at,
  register_generated_asset, asset_registration, reading, written, upload, uploaded, fresh_write,
  reconciled, short_circuit, confirmed, already_materialized, reconcile_or_upload, store_asset,
  materialize_generated_asset,
}
use ai_video_replication.Tasks.Marks.{is_job}
use ai_video_replication.Tasks.Run.{Run, store}
use ai_video_replication.Tasks.Effects.{get_job-finds, Outcome-cases}
use ai_video_replication.Common.Json.{str}

pub record Keeps {S A : Type 0} (m : M (World S) A) : Type 0 where
  pub keep : (w : World S) → (m w).1.db.jobs ≡ w.db.jobs

module _ {S : Type 0} where
  bind-Keeps :
      {A B : Type 0} (m : M (World S) A) (k : A → M (World S) B)
      → Keeps m
      → ((a : A) → Keeps (k a))
      → Keeps (m >>= k)
  bind-Keeps m k hm hk = record {
    keep = λ w. elim (Outcome-cases (m w).0) [
      | inl (a, e) ↦ rw (e, ◌>>=◌) (Keeps.keep (hk a) (m w).1 ∙ hm.keep w)
      | inr (x, e) ↦ rw (e, ◌>>=◌) (hm.keep w)
    ];
  }

  if-Keeps :
      {A : Type 0} (b : Bool) (m n : M (World S) A) → Keeps m → Keeps n → Keeps (if b then m else n)
  if-Keeps true m n hm hn = hm
  if-Keeps false m n hm hn = hn

  lift-Keeps : {A : Type 0} (x : Outcome A) → Keeps (lift {S = World S} x)
  lift-Keeps x = record { keep = λ w. refl }

  written-Keeps : {B : Type 0} (a : Asset) (b : B) → Keeps (written {S = S} a b)
  written-Keeps a b = record {
    keep = λ w. elim (Bool-cases (opt_text_fits 100 a.content_type)) [
      | inl e ↦ rw (e, written) refl
      | inr e ↦ rw (e, written) refl
    ];
  }

module _ {S : Type 0} (env : Surroundings S) where
  reading-Keeps : {B : Type 0} (q : S → Outcome B) → Keeps (reading env q)
  reading-Keeps q = record { keep = λ w. refl }

  materialize_bytes-Keeps :
      (bucket : String) (key : Text) (b : Bytes) (t : String)
      → Keeps (materialize_bytes env bucket key b t)
  unfolding materialize_bytes
  materialize_bytes-Keeps bucket key b t = record { keep = λ w. refl }

  add_or_update-Keeps : (t : Target) (d : Dict) (g : Registration) → Keeps (add_or_update env t d g)
  add_or_update-Keeps t d g = record {
    keep = λ w. elim (Option-cases (find (stored_at t.bucket_name t.object_key) w.db.assets)) [
      | inl e ↦ rw (e, add_or_update) refl
      | inr (a, e) ↦ rw (e, add_or_update) refl
    ];
  }

  register_at-Keeps : (t : Target) (d : Dict) (g : Registration) → Keeps (register_at env t d g)
  register_at-Keeps t d g = record {
    keep = λ w. elim (Bool-cases (registration_fits t g)) [
      | inr e ↦ rw (e, register_at) refl
      | inl e ↦ elim (Bool-cases (references_exist w.db t)) [
        | inr f ↦ rw (e, f, register_at) refl
        | inl f ↦ rw (e, f, register_at) (Keeps.keep (add_or_update-Keeps t d g) w)
      ]
    ];
  }

  pub register_generated_asset-Keeps :
      (project_id version : String) (job : Job) (x : Option ExecutionResult) (g : Registration)
      → Keeps (register_generated_asset env project_id version job x g)
  unfolding register_generated_asset
  register_generated_asset-Keeps project_id version job x g =
      bind-Keeps (place env project_id version job x g) _ (record { keep = λ w. refl })
        λ t. register_at-Keeps t (row_metadata version job) g

  upload-Keeps :
      (r : ExecutionResult) (p : AssetPlan) (c : String) (a : Asset) → Keeps (upload env r p c a)
  upload-Keeps r p c a =
      bind-Keeps _ _ (lift-Keeps (resolve_materialization_payload r p)) λ payload.
        bind-Keeps _ _ (materialize_bytes-Keeps a.bucket_name a.object_key payload _)
          λ stored. written-Keeps (uploaded stored a) (fresh_write stored a)

  reconcile_or_upload-Keeps :
      (r : ExecutionResult) (p : AssetPlan) (c : String) (a : Asset)
      → Keeps (reconcile_or_upload env r p c a)
  reconcile_or_upload-Keeps r p c a =
      bind-Keeps _ _ (reading-Keeps (object_exists env a.bucket_name a.object_key)) λ b.
        if-Keeps b _ _
          (bind-Keeps _ _ (reading-Keeps (stat_artifact env a.bucket_name a.object_key))
            λ o. written-Keeps (reconciled o a) (short_circuit o a))
          (upload-Keeps r p c a)

  store_asset-Keeps :
      (r : ExecutionResult) (p : AssetPlan) (c : String) (a : Asset)
      → Keeps (store_asset env r p c a)
  store_asset-Keeps r p c a =
      if-Keeps (a.status == "materialized") _ _
        (bind-Keeps _ _ (reading-Keeps (object_exists env a.bucket_name a.object_key)) λ b.
          if-Keeps b _ _
            (bind-Keeps _ _ (reading-Keeps (stat_artifact env a.bucket_name a.object_key))
              λ o. written-Keeps (confirmed o a) (already_materialized o (confirmed o a)))
            (reconcile_or_upload-Keeps r p c a))
        (reconcile_or_upload-Keeps r p c a)

  pub materialize_generated_asset-Keeps :
      (project_id version : String) (job : Job) (p : AssetPlan) (r : ExecutionResult)
      → Keeps (materialize_generated_asset env project_id version job p r)
  unfolding materialize_generated_asset
  materialize_generated_asset-Keeps project_id version job p r =
      bind-Keeps _ _
        (register_generated_asset-Keeps project_id version job (some r)
          (asset_registration env r p))
        (store_asset-Keeps r p (resolve_asset_content_type r p))

  -- What `_run_job` holds after the asset is stored: the row as it was.
  pub store-kept :
      (run : Run) (id : String) (job : Job) (r : ExecutionResult) (plan : Option AssetPlan)
      (w : World S) (kept : Job × Option (Asset × Materialization))
      → env.uuid (str run.job_id) ≡ some id
      → find (is_job id) w.db.jobs ≡ some job
      → (store env run job r plan w).0 ≡ returned kept
      → (kept.0 ≡ job) × ((store env run job r plan w).1.db.jobs ≡ w.db.jobs)
  store-kept run id job r none w kept h f e = (ground arith, refl)
  store-kept run id job r (some plan) w kept h f e =
      let m = materialize_generated_asset env run.project_id run.runtime_version job plan r in
      let k =
        Keeps.keep (materialize_generated_asset-Keeps run.project_id run.runtime_version job plan r)
          w in
      elim (Outcome-cases (m w).0) [
        | inl (stored, n) ↦ (
          ground (arith, get_job-finds env run.job_id id w h, f, n),
          ground (arith, get_job-finds env run.job_id id w h, f, n, k),
        )
        | inr (x, n) ↦ absurd (ground (arith, get_job-finds env run.job_id id w h, f, n))
      ]
