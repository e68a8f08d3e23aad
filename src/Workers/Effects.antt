-- ===== src/Workers/Effects.antt =====
-- What each operation of WorkerRegistryRepository has found and changed when it returns.
use ai_video_replication.Common.{
  ℕ, ◌≡◌, inl, inr, ◌⊎◌, true, Option, none, some, String, or_else, eq_iff, arith, count, find,
  find-holds, find-none, update_where, ◌++◌, ◌∷◌, [],
}
use ai_video_replication.Enums.{WorkerHealthStatus}
use ai_video_replication.Store.{
  Time, WorkerRegistry, Db, ok, scalar-cases, worker_checks, worker_fits,
}
use ai_video_replication.Workers.{
  WorkerRegistrationUpsert, has_id, registered, renewed, seen, with_health, incremented,
  decremented, get_by_worker_id, upsert_worker_registration, mark_seen, set_health_status,
  increment_current_job_count, decrement_current_job_count,
}

pub record IsRow (db : Db) (worker_id : String) (w : WorkerRegistry) : Type 0 where
  pub one : count (has_id worker_id) db.workers ≡ 1
  pub found : find (has_id worker_id) db.workers ≡ some w
  pub id : w.worker_id ≡ worker_id

-- The row that was found, and its change, which passes the CHECKs and is all that changed.
pub record Wrote (worker_id : String) (f : WorkerRegistry → WorkerRegistry) (db : Db)
    (w' : WorkerRegistry) (db' : Db) : Type 0 where
  pub row : WorkerRegistry
  pub is_row : IsRow db worker_id row
  pub result : w' ≡ f row
  pub checked : worker_checks (f row) ≡ true
  pub fitted : worker_fits (f row) ≡ true
  pub after : db' ≡ record db { workers = update_where (has_id worker_id) f db.workers }

IsRow-make :
    (db : Db) (k : String) (w : WorkerRegistry)
    → count (has_id k) db.workers ≡ 1
    → find (has_id k) db.workers ≡ some w
    → IsRow db k w
IsRow-make db k w one found = record {
  one = one;
  found = found;
  id = ground (arith, find-holds (has_id k) db.workers w found, eq_iff w.worker_id k);
}

pub get_by_id_lem :
    (k : String) (db db' : Db) (o : Option WorkerRegistry)
    → get_by_worker_id k db ≡ ok (o, db')
    → (db' ≡ db) × (o ≡ find (has_id k) db.workers)
unfolding get_by_worker_id
get_by_id_lem k db db' o eq = elim (scalar-cases (has_id k) db.workers) [
  | inl (m, got, one, found) ↦ (ground arith, ground arith)
  | inr (inl (got, zero)) ↦ (ground arith, ground (arith, find-none (has_id k) db.workers zero))
  | inr (inr got) ↦ absurd (ground arith)
]

pub mark_seen_lem :
    (utcnow : Time) (k : String) (at : Option Time) (db db' : Db) (w' : WorkerRegistry)
    → mark_seen utcnow k at db ≡ ok (w', db')
    → Wrote k (seen at utcnow) db w' db'
unfolding mark_seen
mark_seen_lem utcnow k at db db' w' eq = elim (scalar-cases (has_id k) db.workers) [
  | inl (w, got, one, found) ↦
      let is_row : IsRow db k w = IsRow-make db k w one found in
      record {
        row = w;
        is_row = is_row;
        result = ground arith;
        checked = ground arith;
        fitted = ground arith;
        after = ground (arith, is_row.id);
      }
  | inr (inl (got, _)) ↦ absurd (ground arith)
  | inr (inr got) ↦ absurd (ground arith)
]

pub set_health_status_lem :
    (utcnow : Time) (k : String) (s : WorkerHealthStatus) (at : Option Time) (db db' : Db)
    (w' : WorkerRegistry)
    → set_health_status utcnow k s at db ≡ ok (w', db')
    → Wrote k (with_health s (or_else at utcnow)) db w' db'
unfolding set_health_status
set_health_status_lem utcnow k s at db db' w' eq = elim (scalar-cases (has_id k) db.workers) [
  | inl (w, got, one, found) ↦
      let is_row : IsRow db k w = IsRow-make db k w one found in
      record {
        row = w;
        is_row = is_row;
        result = ground arith;
        checked = ground arith;
        fitted = ground arith;
        after = ground (arith, is_row.id);
      }
  | inr (inl (got, _)) ↦ absurd (ground arith)
  | inr (inr got) ↦ absurd (ground arith)
]

pub increment_lem :
    (k : String) (d : ℕ) (db db' : Db) (w' : WorkerRegistry)
    → increment_current_job_count k d db ≡ ok (w', db')
    → Wrote k (incremented d) db w' db'
unfolding increment_current_job_count
increment_lem k d db db' w' eq = elim (scalar-cases (has_id k) db.workers) [
  | inl (w, got, one, found) ↦
      let is_row : IsRow db k w = IsRow-make db k w one found in
      record {
        row = w;
        is_row = is_row;
        result = ground arith;
        checked = ground arith;
        fitted = ground arith;
        after = ground (arith, is_row.id);
      }
  | inr (inl (got, _)) ↦ absurd (ground arith)
  | inr (inr got) ↦ absurd (ground arith)
]

pub decrement_lem :
    (k : String) (d : ℕ) (db db' : Db) (w' : WorkerRegistry)
    → decrement_current_job_count k d db ≡ ok (w', db')
    → Wrote k (decremented d) db w' db'
unfolding decrement_current_job_count
decrement_lem k d db db' w' eq = elim (scalar-cases (has_id k) db.workers) [
  | inl (w, got, one, found) ↦
      let is_row : IsRow db k w = IsRow-make db k w one found in
      record {
        row = w;
        is_row = is_row;
        result = ground arith;
        checked = ground arith;
        fitted = ground arith;
        after = ground (arith, is_row.id);
      }
  | inr (inl (got, _)) ↦ absurd (ground arith)
  | inr (inr got) ↦ absurd (ground arith)
]

-- A registration adds a row for a new worker, or renews the row of a known one.
pub upsert_lem :
    (utcnow : Time) (p : WorkerRegistrationUpsert) (db db' : Db) (w' : WorkerRegistry)
    → upsert_worker_registration utcnow p db ≡ ok (w', db')
    → Wrote p.worker_id (renewed utcnow p) db w' db'
      ⊎ ((find (has_id p.worker_id) db.workers ≡ none)
          × (w' ≡ registered utcnow p)
          × (worker_checks w' ≡ true)
          × (db' ≡ record db { workers = db.workers ++ registered utcnow p ∷ [] }))
unfolding upsert_worker_registration
upsert_lem utcnow p db db' w' eq = elim (scalar-cases (has_id p.worker_id) db.workers) [
  | inl (w, got, one, found) ↦
      let is_row : IsRow db p.worker_id w = IsRow-make db p.worker_id w one found in
      inl (record {
        row = w;
        is_row = is_row;
        result = ground arith;
        checked = ground arith;
        fitted = ground arith;
        after = ground (arith, is_row.id);
      })
  | inr (inl (got, zero)) ↦
      inr (find-none (has_id p.worker_id) db.workers zero, ground arith, ground arith, ground arith)
  | inr (inr got) ↦ absurd (ground arith)
]
