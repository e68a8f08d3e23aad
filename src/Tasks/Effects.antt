-- ===== src/Tasks/Effects.antt =====
-- What the parts of a task's run leave: the row of its job, and the rest of the table of jobs.
use ai_video_replication.Common.{
  ◌≡◌, refl, arith, ◌⊎◌, inl, inr, Option, none, some, List, [], ◌∷◌, String, eq_iff, find,
  update_where, Option-cases, Bool, true, false, any, select, ◌==◌, In, In-select, Bool-cases,
}
use ai_video_replication.Common.Json.{Json, str, Dict}
use ai_video_replication.Aggregate.{Job, CompiledRuntime, refresh_runtime_status}
use ai_video_replication.Projects.{Database, insert_row, order_by, first}
use ai_video_replication.Projects.Session.{Exn, Outcome, returned, raised, ◌>>=◌, and_then, need}
use ai_video_replication.Tasks.{ExecutionResult, World, Surroundings}
use ai_video_replication.Tasks.Assets.{
  selected_sequence, first_sequence_id, resolve_asset_sequence_id, Target, target_of, stored_at,
  row_metadata, is_sequence, is_project, by_index, sequence_exists, references_exist,
}
use ai_video_replication.Tasks.Materialize.{
  Registration, registration_fits, place, add_or_update, register_at, register_generated_asset,
}
use ai_video_replication.Tasks.Marks.{
  is_job, of_id, with_status, load_runtime, on_runtime, get_job, update_runtime_status,
  refresh_runtime_aggregate,
}

pub Outcome-cases :
    {A : Type 0} (o : Outcome A) → ((a : A) × (o ≡ returned a)) ⊎ ((e : Exn) × (o ≡ raised e))
Outcome-cases (returned a) = inl (a, refl)
Outcome-cases (raised e) = inr (e, refl)

pub find-replaced :
    (id : String) (j : Job) (js : List Job) (k : Job)
    → find (is_job id) js ≡ some k
    → j.id ≡ id
    → find (is_job id) (update_where (is_job j.id) (λ _. j) js) ≡ some j
find-replaced id j [] k h e = cc
find-replaced id j (l ∷ js) k h e =
    ground (arith, eq_iff j.id id, eq_iff l.id id, eq_iff l.id j.id, find-replaced id j js k)

pub find-has_id : (id : String) (js : List Job) (k : Job) → find (is_job id) js ≡ some k → k.id ≡ id
find-has_id id [] k h = cc
find-has_id id (l ∷ js) k h = ground (arith, eq_iff l.id id, find-has_id id js k)

any-In : {A : Type 0} (p : A → Bool) (xs : List A) (a : A) → In a xs → p a ≡ true → any p xs ≡ true
any-In p [] a m e = elim m [ ]
any-In p (x ∷ xs) a (inl same) e = let here : p x ≡ true = rw same e in rw here refl
any-In p (x ∷ xs) a (inr m) e = ground (arith, any-In p xs a m e)

In-insert_row :
    {A : Type 0} (before : A → A → Bool) (a : A) (xs : List A) (b : A)
    → In b (insert_row before a xs)
    → (a ≡ b) ⊎ In b xs
In-insert_row before a [] b m = m
In-insert_row before a (x ∷ xs) b m = elim (Bool-cases (before a x)) [
  | inl e ↦ let k : In b (a ∷ x ∷ xs) = rw e at m in k
  | inr e ↦ elim (let k : In b (x ∷ insert_row before a xs) = rw e at m in k) [
    | inl same ↦ inr (inl same)
    | inr later ↦ elim (In-insert_row before a xs b later) [
      | inl same ↦ inl same
      | inr rest ↦ inr (inr rest)
    ]
  ]
]

In-order_by :
    {A : Type 0} (before : A → A → Bool) (xs : List A) (b : A) → In b (order_by before xs) → In b xs
In-order_by before [] b m = m
In-order_by before (x ∷ xs) b m = elim (In-insert_row before x (order_by before xs) b m) [
  | inl same ↦ inl same
  | inr later ↦ inr (In-order_by before xs b later)
]

In-first : {A : Type 0} (xs : List A) (a : A) → first xs ≡ some a → In a xs
In-first [] a h = cc
In-first (x ∷ xs) a h = inl (ground arith)

-- A step that came to its end and left the jobs alone.
pub record Calm {S A : Type 0} (r : Outcome A × World S) (w : World S) : Type 0 where
  pub answer : A
  pub ran : r.0 ≡ returned answer
  pub jobs_same : r.1.db.jobs ≡ w.db.jobs

abbrev pub place_fits : Outcome Target → Registration → Bool
place_fits (returned t) g = registration_fits t g
place_fits (raised e) g = false

module _ {S : Type 0} (env : Surroundings S) where
  on_runtime-Calm :
      (project_id version pid : String) (change : Database → CompiledRuntime → CompiledRuntime)
      (w : World S)
      → env.uuid (str project_id) ≡ some pid
      → Calm (on_runtime env project_id version change w) w
  on_runtime-Calm project_id version pid change w h =
      go (load_runtime env project_id version w.db) refl
    where
      go :
          (o : Outcome (Option CompiledRuntime))
          → load_runtime env project_id version w.db ≡ o
          → Calm (on_runtime env project_id version change w) w
      go (raised e) l = absurd (unfold load_runtime in let c = rw (h, of_id) at l in cc)
      go (returned none) l =
          rw (l, on_runtime) (record { answer = tt; ran = refl; jobs_same = refl })
      go (returned (some r)) l =
          rw (l, on_runtime) (record { answer = tt; ran = refl; jobs_same = refl })

  pub update_runtime_status-Calm :
      (project_id version pid : String) (status code message : Option String) (w : World S)
      → env.uuid (str project_id) ≡ some pid
      → Calm (update_runtime_status env project_id version status code message w) w
  unfolding update_runtime_status
  update_runtime_status-Calm project_id version pid status code message w h =
      on_runtime-Calm project_id version pid (λ _. with_status status code message) w h

  pub refresh_runtime_aggregate-Calm :
      (project_id version pid : String) (w : World S)
      → env.uuid (str project_id) ≡ some pid
      → Calm (refresh_runtime_aggregate env project_id version w) w
  unfolding refresh_runtime_aggregate
  refresh_runtime_aggregate-Calm project_id version pid w h =
      on_runtime-Calm project_id version pid (λ db. refresh_runtime_status db.jobs) w h

  pub get_job-finds :
      (job_id id : String) (w : World S)
      → env.uuid (str job_id) ≡ some id
      → get_job env job_id w ≡ (returned (find (is_job id) w.db.jobs), w)
  unfolding get_job
  get_job-finds job_id id w h = rw (h, of_id) refl

  -- The sequence that a job or the result of its run names is a row's id, if they name one.
  abbrev pub Selectable : Database → Job → Option ExecutionResult → Type 0
  Selectable db job x =
      (v : Json)
      → selected_sequence job x ≡ some v
      → (id : String) × (env.uuid v ≡ some id) × (any (is_sequence id) db.sequences ≡ true)

  first_row :
      (db : Database) (pid : String)
      → sequence_exists db
          (elim (first (order_by by_index (select (λ s. s.project_id == pid) db.sequences))) [
            | none ↦ none
            | some s ↦ some s.id
          ])
        ≡ true
  first_row db pid =
      let rows = order_by by_index (select (λ s. s.project_id == pid) db.sequences) in
      elim (Option-cases (first rows)) [
        | inl e ↦ rw e refl
        | inr (s, e) ↦ rw e (
            any-In (is_sequence s.id) db.sequences s
              (In-select (λ s. s.project_id == pid) db.sequences s
                (In-order_by by_index _ s (In-first rows s e))).0
              ((eq_iff s.id s.id).1 refl))
      ]

  -- The place of an asset, where the project and a sequence that is named are rows.
  target_of-resolves :
      (db : Database) (project_id version pid : String) (job : Job) (x : Option ExecutionResult)
      (asset_type filename : String)
      → env.uuid (str project_id) ≡ some pid
      → any (is_project pid) db.projects ≡ true
      → Selectable db job x
      → (t : Target) × (target_of env db project_id version job x asset_type filename ≡ returned t)
        × (references_exist db t ≡ true)
  unfolding target_of resolve_asset_sequence_id first_sequence_id references_exist
  target_of-resolves db project_id version pid job x asset_type filename h p s =
      elim (Option-cases (selected_sequence job x)) [
        | inl e ↦ rw (h, e, h, and_then, need) (_, refl, rw p (first_row db pid))
        | inr (v, e) ↦
            let (id, u, row) = s v e in rw (h, e, u, and_then, need) (_, refl, rw (p, row) refl)
      ]

  register_at-Calm :
      (t : Target) (d : Dict) (g : Registration) (w : World S)
      → registration_fits t g ≡ true
      → references_exist w.db t ≡ true
      → Calm (register_at env t d g w) w
  register_at-Calm t d g w f k =
      elim (Option-cases (find (stored_at t.bucket_name t.object_key) w.db.assets)) [
        | inl e ↦ rw (f, k, e, add_or_update) (record { answer = _; ran = refl; jobs_same = refl })
        | inr (a, e) ↦
            rw (f, k, e, add_or_update) (record { answer = _; ran = refl; jobs_same = refl })
      ]

  pub register_generated_asset-Calm :
      (project_id version pid : String) (job : Job) (x : Option ExecutionResult) (g : Registration)
      (w : World S)
      → env.uuid (str project_id) ≡ some pid
      → any (is_project pid) w.db.projects ≡ true
      → Selectable w.db job x
      → place_fits (target_of env w.db project_id version job x g.asset_type g.filename) g ≡ true
      → Calm (register_generated_asset env project_id version job x g w) w
  unfolding register_generated_asset
  register_generated_asset-Calm project_id version pid job x g w h p s f =
      let (t, e, k) =
        target_of-resolves w.db project_id version pid job x g.asset_type g.filename h p s in
      let fits : registration_fits t g ≡ true = let g' = rw e at f in g' in
      rw (◌>>=◌, place, e) (register_at-Calm t (row_metadata version job) g w fits k)
