-- ===== src/Runtime/Views.antt =====
-- The terminal view of a job after any history.
use ai_video_replication.Common.{
  ℕ, ◌≡◌, ◌≤◌, inl, inr, ◌⊎◌, Bool, Option, none, some, List, [], ◌∷◌, String, ◌==◌, arith, In,
  count, find, select, find-none, Option-cases, Bool-cases, eq_iff, suc, ltb, length, length-select,
}
use ai_video_replication.Store.{
  RuntimeJob, JobAttempt, Db, ok, err, scalar_one_or_none, scalar-cases, multiple_results_found,
}
use ai_video_replication.Jobs
use ai_video_replication.Attempts
use ai_video_replication.Leases
use ai_video_replication.Services.Schemas.{World}
use ai_video_replication.Services.Facade.{get_terminal_view, terminal_view}
use ai_video_replication.Runtime.View.{lease_room-le}
use ai_video_replication.Runtime.Steps.{Call, run, empty_db}
use ai_video_replication.Runtime.Histories.{run-Inv, empty-Inv}

at_least_two :
    {A : Type 0} (ys : List A) → scalar_one_or_none ys ≡ err multiple_results_found → 2 ≤ length ys
at_least_two [] h = cc
at_least_two (y ∷ []) h = cc
at_least_two (y ∷ z ∷ ys) h = omega arith

-- With at most one row, a look-up that wants one or none does not fail.
one_or_none :
    {A : Type 0} (p : A → Bool) (xs : List A)
    → count p xs ≤ 1
    → scalar_one_or_none (select p xs) ≡ ok (find p xs)
one_or_none p xs h = elim (scalar-cases p xs) [
  | inl (a, got, one, found) ↦ rw found got
  | inr (inl (got, zero)) ↦ rw (find-none p xs zero) got
  | inr (inr got) ↦ absurd (omega (arith, at_least_two (select p xs) got, length-select p xs))
]

view-of_found :
    (job_id : String) (db : Db) (job : RuntimeJob)
    → count (Jobs.has_id job_id) db.jobs ≤ 1
    → count (Leases.active_on job_id) db.leases ≤ 1
    → find (Jobs.has_id job_id) db.jobs ≡ some job
    → get_terminal_view job_id db
      ≡ ok (
        some (
            terminal_view job
              (Attempts.latest job_id db.attempts)
              (find (Leases.active_on job_id) db.leases)),
        db,
      )
unfolding get_terminal_view Jobs.get_by_job_id Attempts.get_latest_attempt
    Leases.get_active_lease_by_job_id
view-of_found k db job one lone found = ground (
  arith,
  one_or_none (Jobs.has_id k) db.jobs one,
  one_or_none (Leases.active_on k) db.leases lone,
)

view-of_missing :
    (job_id : String) (db : Db)
    → count (Jobs.has_id job_id) db.jobs ≤ 1
    → find (Jobs.has_id job_id) db.jobs ≡ none
    → get_terminal_view job_id db ≡ ok (none, db)
unfolding get_terminal_view Jobs.get_by_job_id
view-of_missing k db one missing = ground (arith, one_or_none (Jobs.has_id k) db.jobs one)

-- After any history from the empty database, get_terminal_view raises nothing and changes nothing. It
-- returns None for a job that has no row, and else the job's row with its latest attempt and its
-- active lease, if it has one.
pub get_terminal_view-total :
    (h : List (World × Call)) (job_id : String)
    → ((find (Jobs.has_id job_id) (run h empty_db).jobs ≡ none)
        × (get_terminal_view job_id (run h empty_db) ≡ ok (none, run h empty_db)))
      ⊎ ((job : RuntimeJob) × (find (Jobs.has_id job_id) (run h empty_db).jobs ≡ some job)
          × (get_terminal_view job_id (run h empty_db)
              ≡ ok (
                some (
                    terminal_view job
                      (Attempts.latest job_id (run h empty_db).attempts)
                      (find (Leases.active_on job_id) (run h empty_db).leases)),
                run h empty_db,
              )))
get_terminal_view-total h k =
    let db = run h empty_db in
    let v = run-Inv h empty_db empty-Inv in
    let lone : count (Leases.active_on k) db.leases ≤ 1 =
      omega (arith, v.exclusive k, lease_room-le k db.jobs) in
    elim (Option-cases (find (Jobs.has_id k) db.jobs)) [
      | inl missing ↦ inl (missing, view-of_missing k db (v.unique k) missing)
      | inr (job, found) ↦ inr (job, found, view-of_found k db job (v.unique k) lone found)
    ]

abbrev top : Option JobAttempt → ℕ
top none = 0
top (some b) = suc b.attempt_index

latest-top :
    (k : String) (xs : List JobAttempt) (a : JobAttempt)
    → In a xs
    → a.job_id ≡ k
    → suc a.attempt_index ≤ top (Attempts.latest k xs)
unfolding Attempts.latest
latest-top k [] a m e = elim m [ ]
latest-top k (x ∷ xs) a (inl same) e = ground (arith, same, eq_iff x.job_id k)
latest-top k (x ∷ xs) a (inr m) e = ground (arith, latest-top k xs a m e)

chosen :
    (x b : JobAttempt) (o : Option JobAttempt) → Attempts.later x o ≡ b → (x ≡ b) ⊎ (o ≡ some b)
chosen x b none h = inl h
chosen x b (some c) h = elim (Bool-cases (ltb x.attempt_index c.attempt_index)) [
  | inl e ↦ inr (ground arith)
  | inr e ↦ inl (ground arith)
]

latest-In :
    (k : String) (xs : List JobAttempt) (b : JobAttempt)
    → Attempts.latest k xs ≡ some b
    → In b xs × (b.job_id ≡ k)
unfolding Attempts.latest
latest-In k [] b h = cc
latest-In k (x ∷ xs) b h = elim (Bool-cases (x.job_id == k)) [
  | inl e ↦ elim (chosen x b (Attempts.latest k xs) (ground arith)) [
    | inl same ↦ (inl same, rw (← same) ((eq_iff x.job_id k).0 e))
    | inr rest ↦ (inr (latest-In k xs b rest).0, (latest-In k xs b rest).1)
  ]
  | inr e ↦
      let rest : Attempts.latest k xs ≡ some b = ground arith in
      (inr (latest-In k xs b rest).0, (latest-In k xs b rest).1)
]

-- get_latest_attempt returns a job's attempt of the highest index: one of the job's attempts, and none
-- of them has a higher index.
pub latest-highest :
    (job_id : String) (attempts : List JobAttempt) (a : JobAttempt)
    → In a attempts
    → a.job_id ≡ job_id
    → (b : JobAttempt) × (Attempts.latest job_id attempts ≡ some b)
      × In b attempts
      × (b.job_id ≡ job_id)
      × (a.attempt_index ≤ b.attempt_index)
latest-highest k attempts a m e = elim (Option-cases (Attempts.latest k attempts)) [
  | inl nothing ↦ absurd (ground (arith, latest-top k attempts a m e))
  | inr (b, got) ↦ (
    b,
    got,
    (latest-In k attempts b got).0,
    (latest-In k attempts b got).1,
    ground (arith, latest-top k attempts a m e),
  )
]
