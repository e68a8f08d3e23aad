-- ===== src/Aggregate/Statuses.antt =====
-- What the statuses of a runtime say of its jobs.
use ai_video_replication.Common.{
  ℕ, suc, ◌+◌, ◌≤◌, ◌≡◌, refl, inl, inr, Bool, false, ◌||◌, if◌then◌else◌, Option, none, some, List,
  [], ◌∷◌, String, ◌==◌, eq_iff, arith, bit, count, length, any, all, Bool-cases, ltb, nat_eq,
  or_text, truthy, ap, ◌∙◌,
}
use ai_video_replication.Aggregate.{
  Job, JobEntry, Summary, CompiledRuntime, refreshed, has_status, summary_of, build_summary,
  derive_compile_status, derive_dispatch_status, last_failed, with_error, refresh_with,
  refresh_runtime_status,
}

any-count : (p : Job → Bool) (js : List Job) → any p js ≡ ltb 0 (count p js)
any-count p [] = refl
any-count p (j ∷ js) = ground (arith, any-count p js)

count-le_length : (p : Job → Bool) (js : List Job) → count p js ≤ length js
count-le_length p [] = omega arith
count-le_length p (j ∷ js) = ground (arith, count-le_length p js)

all-count : (p : Job → Bool) (js : List Job) → all p js ≡ nat_eq (count p js) (length js)
all-count p [] = refl
all-count p (j ∷ js) = ground (arith, all-count p js, count-le_length p js)

abbrev pub is_active : Job → Bool
is_active j = has_status "queued" j || (has_status "dispatched" j || has_status "running" j)

-- The status of a runtime's compilation, said of the jobs and not of their numbers.
abbrev pub compile_status_of : List Job → String → String
compile_status_of [] current_status = current_status
compile_status_of (j ∷ js) current_status =
    if any (has_status "failed") (j ∷ js)
    then "failed"
    else if all (has_status "succeeded") (j ∷ js)
    then "succeeded"
    else if any is_active (j ∷ js)
    then "running"
    else current_status

active-count :
    (js : List Job)
    → any is_active js
      ≡ ltb 0 (
          count (has_status "queued") js
          + count (has_status "dispatched") js
          + count (has_status "running") js)
active-count [] = refl
active-count (j ∷ js) = ground (arith, active-count js)

-- The compile status derived from a summary is `failed` if any job has failed, else `succeeded` if all
-- jobs have succeeded, else `running` if any job is queued, dispatched or running; without jobs, and
-- in every other case, it stays.
pub derive_compile_status-jobs :
    (version : String) (jobs : List Job) (current_status : String)
    → derive_compile_status (summary_of version jobs) current_status
      ≡ compile_status_of jobs current_status
unfolding derive_compile_status
derive_compile_status-jobs version [] current_status = refl
derive_compile_status-jobs version (j ∷ js) current_status =
    rw
      (
        any-count (has_status "failed") (j ∷ js),
        all-count (has_status "succeeded") (j ∷ js),
        active-count (j ∷ js),
      )
      (let nonempty : nat_eq (suc (length js)) 0 ≡ false = ground arith in rw nonempty refl)

-- A job that has left the queue for a worker.
abbrev pub is_dispatched : Job → Bool
is_dispatched j =
    has_status "dispatched" j
    || (has_status "running" j || (has_status "succeeded" j || has_status "failed" j))

abbrev pub dispatch_status_of : List Job → String → String
dispatch_status_of [] current_status = current_status
dispatch_status_of (j ∷ js) current_status =
    if all is_dispatched (j ∷ js)
    then "fully_dispatched"
    else if any is_dispatched (j ∷ js)
    then "partially_dispatched"
    else "not_dispatched"

abbrev four : String → ℕ
four s =
    bit (s == "dispatched") + bit (s == "running") + bit (s == "succeeded") + bit (s == "failed")

abbrev one_of_four : String → Bool
one_of_four s = s == "dispatched" || (s == "running" || (s == "succeeded" || s == "failed"))

-- The four statuses differ, so that at most one of the tests holds.
four-one : (s : String) → four s ≡ bit (one_of_four s)
four-one s = elim (Bool-cases (s == "dispatched")) [
  | inl e ↦ rw ((eq_iff s "dispatched").0 e) refl
  | inr e ↦ elim (Bool-cases (s == "running")) [
    | inl f ↦ rw ((eq_iff s "running").0 f) refl
    | inr f ↦ elim (Bool-cases (s == "succeeded")) [
      | inl g ↦ rw ((eq_iff s "succeeded").0 g) refl
      | inr g ↦ ground (arith, e, f, g)
    ]
  ]
]

dispatched-count :
    (js : List Job)
    → count (has_status "dispatched") js
        + count (has_status "running") js
        + count (has_status "succeeded") js
        + count (has_status "failed") js
      ≡ count is_dispatched js
dispatched-count [] = refl
dispatched-count (j ∷ js) = omega (arith, dispatched-count js, four-one j.status)

-- The dispatch status derived from a summary is `fully_dispatched` if every job is dispatched, running,
-- succeeded or failed, `partially_dispatched` if some are, and `not_dispatched` if none is; without
-- jobs it stays.
pub derive_dispatch_status-jobs :
    (version : String) (jobs : List Job) (current_status : String)
    → derive_dispatch_status (summary_of version jobs) current_status
      ≡ dispatch_status_of jobs current_status
unfolding derive_dispatch_status
derive_dispatch_status-jobs version [] current_status = refl
derive_dispatch_status-jobs version (j ∷ js) current_status =
    let n = count is_dispatched (j ∷ js) in
    rw
      (
        any-count is_dispatched (j ∷ js),
        all-count is_dispatched (j ∷ js),
        dispatched-count (j ∷ js),
      )
      (ground (arith, count-le_length is_dispatched (j ∷ js)))

compile-again :
    (s : Summary) (current : String)
    → derive_compile_status s (derive_compile_status s current) ≡ derive_compile_status s current
unfolding derive_compile_status
compile-again s current = ground arith

dispatch-again :
    (s : Summary) (current : String)
    → derive_dispatch_status s (derive_dispatch_status s current) ≡ derive_dispatch_status s current
unfolding derive_dispatch_status
dispatch-again s current = ground arith

abbrev with_statuses : Summary → CompiledRuntime → CompiledRuntime
with_statuses s r = record r {
  dispatch_summary = refreshed s;
  dispatch_status = derive_dispatch_status s r.dispatch_status;
  compile_status = derive_compile_status s r.compile_status;
}

statuses-again :
    (s : Summary) (r : CompiledRuntime) → with_statuses s (with_statuses s r) ≡ with_statuses s r
statuses-again s r = rw (compile-again s r.compile_status, dispatch-again s r.dispatch_status) refl

or_text-again : (c last : Option String) → or_text c (or_text c last) ≡ or_text c last
or_text-again none last = refl
or_text-again (some t) last = elim (Bool-cases (truthy t)) [ inl h ↦ rw h refl | inr h ↦ rw h refl ]

with_error-again :
    (s : Summary) (o : Option JobEntry) (r : CompiledRuntime)
    → with_error o (with_statuses s (with_error o (with_statuses s r)))
      ≡ with_error o (with_statuses s r)
unfolding with_error
with_error-again s (some e) r =
    rw
      (
        compile-again s r.compile_status,
        dispatch-again s r.dispatch_status,
        or_text-again e.error_code r.last_error_code,
      )
      refl
with_error-again s none r =
    elim (Bool-cases (derive_compile_status s r.compile_status == "failed")) [
      | inl e ↦ rw (e, compile-again s r.compile_status, e, dispatch-again s r.dispatch_status) refl
      | inr e ↦ rw (e, compile-again s r.compile_status, e, dispatch-again s r.dispatch_status) refl
    ]

with_error-keeps :
    (o : Option JobEntry) (r : CompiledRuntime)
    → (CompiledRuntime.project_id (with_error o r) ≡ r.project_id)
      × (CompiledRuntime.runtime_version (with_error o r) ≡ r.runtime_version)
unfolding with_error
with_error-keeps none r = (ground arith, ground arith)
with_error-keeps (some e) r = (refl, refl)

build_summary-same :
    (table : List Job) (q r : CompiledRuntime)
    → q.project_id ≡ r.project_id
    → q.runtime_version ≡ r.runtime_version
    → build_summary table q ≡ build_summary table r
unfolding build_summary
build_summary-same table q r e f = rw (e, f) refl

-- A second refresh of a runtime, with the same jobs, changes nothing: refresh_runtime_status is
-- idempotent in every field that it writes.
pub refresh_runtime_status-again :
    (table : List Job) (runtime : CompiledRuntime)
    → refresh_runtime_status table (refresh_runtime_status table runtime)
      ≡ refresh_runtime_status table runtime
unfolding refresh_runtime_status
refresh_runtime_status-again table runtime =
    let s = build_summary table runtime in
    let kept = with_error-keeps (last_failed s.jobs) (with_statuses s runtime) in
    ap (λ t. refresh_with t (refresh_runtime_status table runtime))
      (build_summary-same table (refresh_runtime_status table runtime) runtime kept.0 kept.1)
    ∙ with_error-again s (last_failed s.jobs) runtime
