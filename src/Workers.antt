-- ===== src/Workers.antt =====
-- app/repositories/worker_registry_repository.py: the table worker_registry.
pub mod Effects
use ai_video_replication.Common.{
  ℕ, ℤ, ◌+◌, ◌-◌, Bool, not, if◌then◌else◌, Option, none, some, List, [], ◌∷◌, ◌++◌, String, ◌==◌,
  or_else, select, update_where,
}
use ai_video_replication.Common.Json.{Dict}
use ai_video_replication.Common.Text.{Text, codes}
use ai_video_replication.Enums.{WorkerHealthStatus}
use ai_video_replication.Store.{
  Time, WorkerRegistry, M, ok, err, value_error, integrity_error, ◌>>=◌, present, reads,
  scalar_one_or_none, worker_checks, worker_fits, data_error,
}

-- `WorkerRegistrationUpsert` of app/schemas/runtime.py
pub record WorkerRegistrationUpsert : Type 0 where
  pub worker_id : String
  pub worker_type : String
  pub hostname : String
  pub pid : Option ℤ
  pub version : Option String
  pub capability_tags_json : List String
  pub queue_bindings_json : List String
  pub health_status : WorkerHealthStatus
  pub max_concurrency : ℤ
  pub started_at : Option Time
  pub last_seen_at : Option Time
  pub metadata_json : Dict

abbrev pub has_id : String → WorkerRegistry → Bool
has_id k w = w.worker_id == k

unfoldable pub get_by_worker_id : String → M (Option WorkerRegistry)
get_by_worker_id worker_id = reads (λ db. scalar_one_or_none (select (has_id worker_id) db.workers))

abbrev pub write : WorkerRegistry → (WorkerRegistry → WorkerRegistry) → M WorkerRegistry
write w f db =
    if not (worker_fits (f w))
    then err data_error
    else if worker_checks (f w)
    then ok (f w, record db { workers = update_where (has_id w.worker_id) f db.workers })
    else err integrity_error

abbrev pub add : WorkerRegistry → M WorkerRegistry
add w db =
    if not (worker_fits w)
    then err data_error
    else if worker_checks w
    then ok (w, record db { workers = db.workers ++ w ∷ [] })
    else err integrity_error

-- The row of a worker that is seen for the first time.
abbrev pub registered : Time → WorkerRegistrationUpsert → WorkerRegistry
registered now p = record {
  worker_id = p.worker_id;
  worker_type = p.worker_type;
  hostname = p.hostname;
  pid = p.pid;
  version = p.version;
  capability_tags_json = p.capability_tags_json;
  queue_bindings_json = p.queue_bindings_json;
  health_status = p.health_status;
  current_job_count = 0;
  max_concurrency = p.max_concurrency;
  started_at = or_else p.started_at now;
  last_seen_at = or_else p.last_seen_at now;
  draining_at = none;
  offline_at = none;
  metadata_json = p.metadata_json;
}

abbrev pub keep_if_draining : WorkerHealthStatus → Option Time → Option Time
keep_if_draining WorkerHealthStatus.draining at = at
keep_if_draining _ at = none

abbrev pub keep_if_offline : WorkerHealthStatus → Option Time → Option Time
keep_if_offline WorkerHealthStatus.offline at = at
keep_if_offline _ at = none

abbrev pub renewed : Time → WorkerRegistrationUpsert → WorkerRegistry → WorkerRegistry
renewed now p w = record w {
  worker_type = p.worker_type;
  hostname = p.hostname;
  pid = p.pid;
  version = p.version;
  capability_tags_json = p.capability_tags_json;
  queue_bindings_json = p.queue_bindings_json;
  health_status = p.health_status;
  max_concurrency = p.max_concurrency;
  last_seen_at = or_else p.last_seen_at now;
  metadata_json = p.metadata_json;
  draining_at = keep_if_draining p.health_status w.draining_at;
  offline_at = keep_if_offline p.health_status w.offline_at;
}

unfoldable pub upsert_worker_registration : Time → WorkerRegistrationUpsert → M WorkerRegistry
unfolding get_by_worker_id
upsert_worker_registration utcnow p = do
  found ← get_by_worker_id p.worker_id
  elim found [ none ↦ add (registered utcnow p) | some w ↦ write w (renewed utcnow p) ]

abbrev pub not_found : String → Text
not_found worker_id = codes "worker not found: " ++ codes worker_id

abbrev pub seen : Option Time → Time → WorkerRegistry → WorkerRegistry
seen seen_at utcnow w = record w { last_seen_at = or_else seen_at utcnow }

unfoldable pub mark_seen : Time → String → Option Time → M WorkerRegistry
unfolding get_by_worker_id
mark_seen utcnow worker_id seen_at = do
  w ← present (← get_by_worker_id worker_id) (value_error (not_found worker_id))
  write w (seen seen_at utcnow)

abbrev pub draining_from : WorkerHealthStatus → Time → Option Time → Option Time
draining_from WorkerHealthStatus.draining at old = some at
draining_from _ at old = old

abbrev pub offline_from : WorkerHealthStatus → Time → Option Time → Option Time
offline_from WorkerHealthStatus.offline at old = some at
offline_from _ at old = old

abbrev pub with_health : WorkerHealthStatus → Time → WorkerRegistry → WorkerRegistry
with_health health_status at w = record w {
  health_status = health_status;
  last_seen_at = at;
  draining_at = draining_from health_status at w.draining_at;
  offline_at = offline_from health_status at w.offline_at;
}

unfoldable pub set_health_status :
    Time → String → WorkerHealthStatus → Option Time → M WorkerRegistry
unfolding get_by_worker_id
set_health_status utcnow worker_id health_status changed_at = do
  w ← present (← get_by_worker_id worker_id) (value_error (not_found worker_id))
  write w (with_health health_status (or_else changed_at utcnow))

abbrev pub incremented : ℕ → WorkerRegistry → WorkerRegistry
incremented delta w = record w { current_job_count = w.current_job_count + delta }

unfoldable pub increment_current_job_count : String → ℕ → M WorkerRegistry
unfolding get_by_worker_id
increment_current_job_count worker_id delta = do
  w ← present (← get_by_worker_id worker_id) (value_error (not_found worker_id))
  write w (incremented delta)

-- `max(0, count - delta)`, which is the truncated subtraction
abbrev pub decremented : ℕ → WorkerRegistry → WorkerRegistry
decremented delta w = record w { current_job_count = w.current_job_count - delta }

unfoldable pub decrement_current_job_count : String → ℕ → M WorkerRegistry
unfolding get_by_worker_id
decrement_current_job_count worker_id delta = do
  w ← present (← get_by_worker_id worker_id) (value_error (not_found worker_id))
  write w (decremented delta)
