-- ===== src/Compiler/Found.antt =====
-- The compiled runtime, as the executors find it.
use ai_video_replication.Common.{
  ◌≡◌, refl, ap, arith, Bool, true, false, Bool-cases, some, List, [], ◌∷◌, ◌++◌, eq_iff, leb_ℤ,
  select, update_where, All, inl, inr, ◌∙◌,
}
use ai_video_replication.Common.Json.{str}
use ai_video_replication.Aggregate.{CompiledRuntime}
use ai_video_replication.Projects.{Database, insert_row, order_by, first}
use ai_video_replication.Projects.Session.{
  Exn, returned, raised, M, ◌>>=◌, ◌>>◌, pure, lift, need, and_then,
}
use ai_video_replication.Tasks.{Surroundings}
use ai_video_replication.Tasks.Marks.{is_runtime, of_id, newer, of_version, load_runtime}
use ai_video_replication.Tasks.Effects.{Outcome-cases}
use ai_video_replication.Executors.Selection.{is_empty_dict, load_runtime_payload}
use ai_video_replication.Compiler.{CompileRequest, Outside, Transaction}
use ai_video_replication.Compiler.Packet.{parts_of, runtime_packet}
use ai_video_replication.Compiler.Jobs.{commit}
use ai_video_replication.Compiler.Stored.{Saved, dispatch_runtime-Saved}
use ai_video_replication.Compiler.Runs.{
  add_runtime, resolve_runtime_version, check_project, new_runtime, closed, dispatch_runtime,
  compile_body, compile_project,
}

first-insert_row :
    (x r : CompiledRuntime) (rows : List CompiledRuntime)
    → newer x r ≡ false
    → first rows ≡ some r
    → first (insert_row newer x rows) ≡ some r
first-insert_row x r [] h e = cc
first-insert_row x r (y ∷ rows) h e = let d : y ≡ r = cc in rw (d, h) refl

first-order_by :
    (r : CompiledRuntime) (rows : List CompiledRuntime)
    → All (λ x. newer x r ≡ false) rows
    → first (order_by newer (rows ++ (r ∷ []))) ≡ some r
first-order_by r [] h = refl
first-order_by r (x ∷ rows) (h, rest) =
    first-insert_row x r (order_by newer (rows ++ (r ∷ []))) h (first-order_by r rows rest)

select-All :
    (P : CompiledRuntime → Type 0) (p : CompiledRuntime → Bool) (rows : List CompiledRuntime)
    → All P rows
    → All P (select p rows)
select-All P p [] h = h
select-All P p (x ∷ rows) (h, rest) = elim (Bool-cases (p x)) [
  | inl e ↦ rw e (h, select-All P p rows rest)
  | inr e ↦ rw e (select-All P p rows rest)
]

select-last :
    (p : CompiledRuntime → Bool) (r : CompiledRuntime) (rows : List CompiledRuntime)
    → p r ≡ true
    → select p (rows ++ (r ∷ [])) ≡ select p rows ++ (r ∷ [])
select-last p r [] h = rw h refl
select-last p r (x ∷ rows) h = ground (arith, select-last p r rows h)

update-last :
    (n r : CompiledRuntime) (rows : List CompiledRuntime)
    → All (λ x. is_runtime n.id x ≡ false) rows
    → update_where (is_runtime n.id) (λ _. r) (rows ++ (n ∷ [])) ≡ rows ++ (r ∷ [])
update-last n r [] h = rw ((eq_iff n.id n.id).1 refl) refl
update-last n r (x ∷ rows) (h, rest) = rw (h, update-last n r rows rest) refl

of_version-itself : (r : CompiledRuntime) → of_version r.project_id r.runtime_version r ≡ true
of_version-itself r =
    rw
      (
        (eq_iff r.project_id r.project_id).1 refl,
        (eq_iff r.runtime_version r.runtime_version).1 refl,
      )
      refl

-- A row that is newer than all the others is the first of its version.
first-newest :
    (r : CompiledRuntime) (rows : List CompiledRuntime)
    → All (λ x. newer x r ≡ false) rows
    → first (order_by newer (select (of_version r.project_id r.runtime_version) (rows ++ (r ∷ []))))
      ≡ some r
first-newest r rows h =
    let p = of_version r.project_id r.runtime_version in
    ap (λ l. first (order_by newer l)) (select-last p r rows (of_version-itself r))
    ∙ first-order_by r (select p rows) (select-All (λ x. newer x r ≡ false) p rows h)

load_runtime_payload-finds :
    {S : Type 0} (worker : Surroundings S) (r : CompiledRuntime) (db : Database)
    → worker.uuid (str r.project_id) ≡ some r.project_id
    → first (order_by newer (select (of_version r.project_id r.runtime_version) db.runtimes))
      ≡ some r
    → is_empty_dict r.runtime_payload ≡ false
    → load_runtime_payload worker db r.project_id r.runtime_version ≡ returned r
unfolding load_runtime_payload load_runtime
load_runtime_payload-finds worker r db u f e =
    rw (load_runtime_payload, load_runtime, of_id, u, f, need, and_then, e) refl

module _ {S A C : Type 0} (m : M S A) (k : A → M S C) (s : S) where
  bind-step : (a : A) (t : S) → m s ≡ (returned a, t) → (m >>= k) s ≡ k a t
  bind-step a t e =
      let p : (m s).0 ≡ returned a = ap (λ o. o.0) e in
      let q : (m >>= k) s ≡ k a (m s).1 = rw (◌>>=◌, p) refl in q ∙ ap (λ o. k a o.1) e

  bind-stop : (x : Exn) (t : S) → m s ≡ (raised x, t) → (m >>= k) s ≡ (raised x, t)
  bind-stop x t e =
      let p : (m s).0 ≡ raised x = ap (λ o. o.0) e in
      let q : (m >>= k) s ≡ (raised x, (m s).1) = rw (◌>>=◌, p) refl in
      q ∙ ap (λ o. (raised x, o.1)) e

module _ {B : Type 0} (env : Outside B) where
  abbrev added : Transaction B → CompiledRuntime → Transaction B
  added s n = (add_runtime env n s).1

  -- The steps of a compile that returned.
  record Compiled (n r : CompiledRuntime) (s t : Transaction B) : Type 0 where
    kept : Saved env n r (added s n) t.db.runtimes
    committed : t.saved.runtimes ≡ t.db.runtimes

  compile_project-Compiled :
      (request : CompileRequest) (r : CompiledRuntime) (s : Transaction B)
      → (compile_project env request s).0 ≡ returned r
      → Compiled
          (new_runtime env s.db request (resolve_runtime_version s.db request))
          r
          s
          (compile_project env request s).1
  unfolding compile_project compile_body
  compile_project-Compiled request r s h =
      let n = new_runtime env s.db request (resolve_runtime_version s.db request) in
      let d = dispatch_runtime env request n (added s n) in
      let k : CompiledRuntime → M (Transaction B) CompiledRuntime =
        λ done. commit env >> pure done in
      let check =
        lift {S = Transaction B} (check_project s.db request.project_id) >> add_runtime env n in
      elim (Outcome-cases (check_project s.db request.project_id)) [
        | inl (u, e) ↦
            let p : check s ≡ (returned tt, added s n) =
              bind-step (lift (check_project s.db request.project_id)) (λ _. add_runtime env n) s u
                s (ap (λ o. (o, s)) e) in
            let q : compile_body env request s
                ≡ (dispatch_runtime env request n >>= k) (added s n) =
              bind-step check (λ _. dispatch_runtime env request n >>= k) s tt (added s n) p in
            elim (Outcome-cases d.0) [
              | inl (a, f) ↦
                  let t : compile_body env request s ≡ (returned a, (commit env d.1).1) =
                    q
                    ∙ bind-step (dispatch_runtime env request n) k (added s n) a d.1
                        (ap (λ o. (o, d.1)) f) in
                  let c : a ≡ r = (let g = rw (t, closed) at h in cc) in
                  rw (t, closed)
                    record {
                      kept = dispatch_runtime-Saved env request n r (added s n) (f ∙ ap returned c);
                      committed = refl;
                    }
              | inr (x, f) ↦
                  let t : compile_body env request s ≡ (raised x, d.1) =
                    q
                    ∙ bind-stop (dispatch_runtime env request n) k (added s n) x d.1
                        (ap (λ o. (o, d.1)) f) in
                  absurd (let g = rw (t, closed) at h in cc)
            ]
        | inr (x, e) ↦
            let p : check s ≡ (raised x, s) =
              bind-stop (lift (check_project s.db request.project_id)) (λ _. add_runtime env n) s x
                s (ap (λ o. (o, s)) e) in
            let t : compile_body env request s ≡ (raised x, s) =
              bind-stop check (λ _. dispatch_runtime env request n >>= k) s x s p in
            absurd (let g = rw (t, closed) at h in cc)
      ]

  module _ {S : Type 0} (worker : Surroundings S) where
    -- If the ids are well formed, the new runtime's id is not in use, and every runtime in the database
    -- was created before it, then the runtime that compile_project returns is committed, and the workers
    -- that load the payload under its project and version get it back, with the packet of the
    -- project's rows in it.
    pub compile_project-load_runtime_payload :
        (request : CompileRequest) (r : CompiledRuntime) (s : Transaction B)
        → worker.uuid (str request.project_id) ≡ some request.project_id
        → All (λ x. is_runtime env.runtime_id x ≡ false) s.db.runtimes
        → All (λ x. leb_ℤ env.created_at x.created_at ≡ false) s.db.runtimes
        → (compile_project env request s).0 ≡ returned r
        → (load_runtime_payload worker
              (compile_project env request s).1.saved
              r.project_id
              r.runtime_version
            ≡ returned r)
          × (r.runtime_payload
              ≡ runtime_packet request r.runtime_version (parts_of s.db request.project_id))
    unfolding runtime_packet
    compile_project-load_runtime_payload request r s u fresh old h =
        let t = (compile_project env request s).1 in
        let n = new_runtime env s.db request (resolve_runtime_version s.db request) in
        let c = compile_project-Compiled request r s h in
        let rows : t.saved.runtimes ≡ s.db.runtimes ++ (r ∷ []) =
          c.committed ∙ c.kept.written ∙ update-last n r s.db.runtimes fresh in
        let packet : r.runtime_payload ≡ n.runtime_payload = c.kept.same_payload in
        (
          load_runtime_payload-finds worker r t.saved (rw c.kept.same_project u)
              (rw rows (first-newest r s.db.runtimes (rw c.kept.same_time old))) (rw packet refl),
          rw c.kept.same_version packet,
        )
