-- ===== src/Leases.antt =====
-- app/repositories/worker_lease_repository.py: the table worker_leases. Every change goes through the
-- one ACTIVE row of a claim token.
pub mod Effects
use ai_video_replication.Common.{
  ◌+◌, pos, leb_ℤ, Bool, true, false, not, ◌||◌, ◌&&◌, if◌then◌else◌, Option, some, [], ◌∷◌, ◌++◌,
  String, ◌==◌, or_else, select, any, update_where,
}
use ai_video_replication.Common.Text.{Text, codes}
use ai_video_replication.Enums.{LeaseStatus}
use ai_video_replication.Store.{
  Time, WorkerLease, M, ok, err, value_error, integrity_error, ◌>>=◌, ◌>>◌, present, raise_if,
  reads, scalar_one_or_none, lease_checks, lease_fits, data_error,
}

abbrev pub is_active : LeaseStatus → Bool
is_active LeaseStatus.active = true
is_active _ = false

abbrev pub active_on : String → WorkerLease → Bool
active_on job_id l = is_active l.lease_status && l.job_id == job_id

abbrev pub active_with : String → WorkerLease → Bool
active_with claim_token l = is_active l.lease_status && l.claim_token == claim_token

-- UNIQUE (lease_id) and UNIQUE (claim_token)
abbrev pub collides : WorkerLease → WorkerLease → Bool
collides l m = m.lease_id == l.lease_id || m.claim_token == l.claim_token

unfoldable pub create_lease : WorkerLease → M WorkerLease
create_lease l db =
    if not (lease_fits l)
    then err data_error
    else if any (collides l) db.leases
    then err integrity_error
    else if lease_checks l
    then ok (l, record db { leases = db.leases ++ l ∷ [] })
    else err integrity_error

unfoldable pub get_active_lease_by_job_id : String → M (Option WorkerLease)
get_active_lease_by_job_id job_id =
    reads (λ db. scalar_one_or_none (select (active_on job_id) db.leases))

unfoldable pub get_active_lease_by_claim_token : String → M (Option WorkerLease)
get_active_lease_by_claim_token claim_token =
    reads (λ db. scalar_one_or_none (select (active_with claim_token) db.leases))

-- The row is the one that `get_active_lease_by_claim_token` has found.
abbrev pub write : WorkerLease → (WorkerLease → WorkerLease) → M WorkerLease
write l f db =
    if lease_fits (f l)
    then ok (f l, record db { leases = update_where (active_with l.claim_token) f db.leases })
    else err data_error

abbrev pub not_found : String → Text
not_found claim_token = codes "active lease not found for claim_token: " ++ codes claim_token

abbrev pub about : WorkerLease → String → Text
about l words = codes "lease " ++ (codes l.lease_id ++ codes words)

abbrev pub extended : Time → Option Time → Time → WorkerLease → WorkerLease
extended lease_expires_at heartbeat_at utcnow l = record l {
  lease_expires_at = lease_expires_at;
  last_heartbeat_at = some (or_else heartbeat_at utcnow);
  heartbeat_count = l.heartbeat_count + 1;
  extension_count = l.extension_count + 1;
}

unfoldable pub extend_lease : Time → String → String → Time → Option Time → M WorkerLease
unfolding get_active_lease_by_claim_token
extend_lease utcnow claim_token worker_id lease_expires_at heartbeat_at = do
  l ← present (← get_active_lease_by_claim_token claim_token) (value_error (not_found claim_token))
  raise_if (not (l.worker_id == worker_id)) (value_error (about l " worker_id mismatch"))
  raise_if (leb_ℤ l.max_extensions (pos l.extension_count))
      (value_error (about l " max_extensions exceeded"))
  write l (extended lease_expires_at heartbeat_at utcnow)

abbrev pub released : Option Time → Time → WorkerLease → WorkerLease
released released_at utcnow l = record l {
  lease_status = LeaseStatus.released;
  last_heartbeat_at = some (or_else released_at utcnow);
}

unfoldable pub release_lease : Time → String → String → Option Time → M WorkerLease
unfolding get_active_lease_by_claim_token
release_lease utcnow claim_token worker_id released_at = do
  l ← present (← get_active_lease_by_claim_token claim_token) (value_error (not_found claim_token))
  raise_if (not (l.worker_id == worker_id)) (value_error (about l " worker_id mismatch"))
  write l (released released_at utcnow)

abbrev pub expired : Option Time → Time → WorkerLease → WorkerLease
expired expired_at utcnow l = record l {
  lease_status = LeaseStatus.expired;
  lease_expires_at = or_else expired_at utcnow;
}

unfoldable pub expire_lease : Time → String → Option Time → M WorkerLease
unfolding get_active_lease_by_claim_token
expire_lease utcnow claim_token expired_at = do
  l ← present (← get_active_lease_by_claim_token claim_token) (value_error (not_found claim_token))
  write l (expired expired_at utcnow)

abbrev pub revoked : String → Option Time → Time → WorkerLease → WorkerLease
revoked reason revoked_at utcnow l = record l {
  lease_status = LeaseStatus.revoked;
  revoked_at = some (or_else revoked_at utcnow);
  revoked_reason = some reason;
}

unfoldable pub revoke_lease : Time → String → String → Option Time → M WorkerLease
unfolding get_active_lease_by_claim_token
revoke_lease utcnow claim_token reason revoked_at = do
  l ← present (← get_active_lease_by_claim_token claim_token) (value_error (not_found claim_token))
  write l (revoked reason revoked_at utcnow)
