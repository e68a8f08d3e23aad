-- ===== src/Compiler/Stored.antt =====
-- What the dispatch of a compile leaves of the runtimes.
use ai_video_replication.Common.{
  ◌≡◌, refl, sym, Bool-cases, List, [], ◌∷◌, String, update_where, inl, inr, Option-cases, ◌∙◌,
}
use ai_video_replication.Aggregate.{Job, CompiledRuntime, Dispatched}
use ai_video_replication.Projects.Session.{Exn, Outcome, returned, raised, M, ◌>>=◌, ◌>>◌, pure}
use ai_video_replication.Tasks.Marks.{is_runtime}
use ai_video_replication.Tasks.Run.{Run}
use ai_video_replication.Tasks.Entry.{task_call}
use ai_video_replication.Tasks.Effects.{Outcome-cases}
use ai_video_replication.Compiler.{CompileRequest, Outside, Transaction}
use ai_video_replication.Compiler.Prompt.{build_render_image_payload}
use ai_video_replication.Compiler.Jobs.{
  task_of, resolve_primary_sequence_selector, job_types, with_task, dispatch_summary_of, new_jobs,
  delay, dispatch, dispatched_job, save_job, dispatch_all, commit, add_jobs,
  create_and_dispatch_jobs,
}
use ai_video_replication.Compiler.Runs.{undispatched, with_dispatch, save_runtime, dispatch_runtime}

pub unreturned : {A : Type 0} (a : A) (e : Exn) (o : Outcome A) → o ≡ returned a → o ≡ raised e → ⊥
unreturned a e o r t = cc

-- A step that leaves the table of runtimes alone.
record Keeps {B A : Type 0} (r : Outcome A × Transaction B) (s : Transaction B) : Type 0 where
  runtimes_same : r.1.db.runtimes ≡ s.db.runtimes

bind-Keeps :
    {B A C : Type 0} (m : M (Transaction B) A) (k : A → M (Transaction B) C) (s : Transaction B)
    → Keeps (m s) s
    → ((a : A) (t : Transaction B) → Keeps (k a t) t)
    → Keeps ((m >>= k) s) s
bind-Keeps m k s h n = elim (Outcome-cases (m s).0) [
  | inl (a, e) ↦ record {
    runtimes_same = rw (◌>>=◌, e) ((n a (m s).1).runtimes_same ∙ h.runtimes_same);
  }
  | inr (x, e) ↦ record { runtimes_same = rw (◌>>=◌, e) h.runtimes_same }
]

module _ {B : Type 0} (env : Outside B) where
  delay-Keeps : (run : Run) (s : Transaction B) → Keeps (delay env run s) s
  delay-Keeps run s = elim (Outcome-cases (env.delay run s.broker).0) [
    | inl (id, e) ↦ record { runtimes_same = rw (delay, e) refl }
    | inr (x, e) ↦ record { runtimes_same = rw (delay, e) refl }
  ]

  dispatch-Keeps :
      (job : Job) (version : String) (s : Transaction B) → Keeps (dispatch env job version s) s
  unfolding dispatch
  dispatch-Keeps job version s = elim (Option-cases (task_of job.job_type)) [
    | inl e ↦ record { runtimes_same = rw (dispatch, e) refl }
    | inr (t, e) ↦ record {
      runtimes_same =
          rw (dispatch, e)
            (delay-Keeps (task_call t job.id job.project_id version) s).runtimes_same;
    }
  ]

  dispatch_all-Keeps :
      (version : String) (jobs : List Job) (s : Transaction B)
      → Keeps (dispatch_all env version jobs s) s
  unfolding dispatch_all
  dispatch_all-Keeps version [] s = record { runtimes_same = refl }
  dispatch_all-Keeps version (job ∷ rest) s =
      bind-Keeps (dispatch env job version)
        (λ task_id.
          save_job env (with_task task_id job)
          >> (dispatch_all env version rest >>= λ items.
              pure (dispatched_job (with_task task_id job) ∷ items)))
        s (dispatch-Keeps job version s)
        λ task_id t.
          let u = (save_job env (with_task task_id job) t).1 in
          record {
            runtimes_same =
                (bind-Keeps (dispatch_all env version rest)
                  (λ items. pure (dispatched_job (with_task task_id job) ∷ items)) u
                  (dispatch_all-Keeps version rest u)
                  λ items v. record { runtimes_same = refl }).runtimes_same;
          }

  create_and_dispatch_jobs-Keeps :
      (project_id version : String) (s : Transaction B)
      → Keeps (create_and_dispatch_jobs env project_id version s) s
  unfolding create_and_dispatch_jobs
  create_and_dispatch_jobs-Keeps project_id version s =
      let jobs =
        new_jobs env project_id version (resolve_primary_sequence_selector s.db project_id)
          (build_render_image_payload env.repr s.db project_id version) job_types in
      let t = (commit env (add_jobs env jobs s).1).1 in
      let h = dispatch_all-Keeps version jobs t in
      record {
        runtimes_same =
            (bind-Keeps (dispatch_all env version jobs)
              (λ items. pure (dispatch_summary_of version items)) t h
              λ items v. record { runtimes_same = refl }).runtimes_same;
      }

  -- What a dispatch leaves of the runtime `n` that was added before.
  pub record Saved (n r : CompiledRuntime) (s : Transaction B) (rows : List CompiledRuntime)
      : Type 0 where
    pub same_id : r.id ≡ n.id
    pub same_project : r.project_id ≡ n.project_id
    pub same_version : r.runtime_version ≡ n.runtime_version
    pub same_payload : r.runtime_payload ≡ n.runtime_payload
    pub same_time : r.created_at ≡ n.created_at
    pub written : rows ≡ update_where (is_runtime n.id) (λ _. r) s.db.runtimes

  save_runtime-Saved :
      (status : String) (m : Dispatched) (n r : CompiledRuntime) (s u : Transaction B)
      → u.db.runtimes ≡ s.db.runtimes
      → (save_runtime env (with_dispatch status m n) u).0 ≡ returned r
      → Saved n r s (save_runtime env (with_dispatch status m n) u).1.db.runtimes
  save_runtime-Saved status m n r s u h e =
      let c : with_dispatch status m n ≡ r = cc in
      rw (sym c) (record {
        same_id = refl;
        same_project = refl;
        same_version = refl;
        same_payload = refl;
        same_time = refl;
        written = rw h refl;
      })

  pub dispatch_runtime-Saved :
      (request : CompileRequest) (n r : CompiledRuntime) (s : Transaction B)
      → (dispatch_runtime env request n s).0 ≡ returned r
      → Saved n r s (dispatch_runtime env request n s).1.db.runtimes
  unfolding dispatch_runtime
  dispatch_runtime-Saved request n r s h = elim (Bool-cases request.dispatch_jobs) [
    | inl d ↦
        elim (Outcome-cases (create_and_dispatch_jobs env n.project_id n.runtime_version s).0) [
          | inl (m, e) ↦
              let u = (create_and_dispatch_jobs env n.project_id n.runtime_version s).1 in
              let t : dispatch_runtime env request n s
                  ≡ save_runtime env (with_dispatch "dispatched" m n) u =
                rw (dispatch_runtime, d, ◌>>=◌, e) refl in
              rw t (
                save_runtime-Saved "dispatched" m n r s u
                  (create_and_dispatch_jobs-Keeps n.project_id n.runtime_version s).runtimes_same
                  (rw t at h))
          | inr (x, e) ↦
              let t : (dispatch_runtime env request n s).0 ≡ raised x =
                rw (dispatch_runtime, d, ◌>>=◌, e) refl in
              absurd (unreturned r x (dispatch_runtime env request n s).0 h t)
        ]
    | inr d ↦
        let m = undispatched n.runtime_version in
        let t : dispatch_runtime env request n s
            ≡ save_runtime env (with_dispatch n.compile_status m n) s =
          rw (dispatch_runtime, d) refl in
        rw t (save_runtime-Saved n.compile_status m n r s s refl (rw t at h))
  ]
