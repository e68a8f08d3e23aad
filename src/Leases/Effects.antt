-- ===== src/Leases/Effects.antt =====
-- What each operation of WorkerLeaseRepository has found and changed when it returns.
use ai_video_replication.Common.{
  pos, leb_ℤ, ◌≡◌, inl, inr, true, false, Option, some, String, eq_iff, arith, count, find,
  find-holds, any, update_where, ◌++◌, ◌∷◌, [],
}
use ai_video_replication.Store.{Time, WorkerLease, Db, ok, scalar-cases, lease_checks, lease_fits}
use ai_video_replication.Leases.{
  active_with, collides, extended, released, expired, extend_lease, release_lease, expire_lease,
  create_lease, get_active_lease_by_claim_token,
}

-- The one active row of a token.
pub record Holds (db : Db) (claim_token : String) (l : WorkerLease) : Type 0 where
  pub one : count (active_with claim_token) db.leases ≡ 1
  pub found : find (active_with claim_token) db.leases ≡ some l
  pub token : l.claim_token ≡ claim_token

-- The row that was found under a token, and its change, which is all that changed.
pub record Wrote (claim_token : String) (f : WorkerLease → WorkerLease) (db : Db) (l' : WorkerLease)
    (db' : Db) : Type 0 where
  pub row : WorkerLease
  pub held : Holds db claim_token row
  pub result : l' ≡ f row
  pub after : db' ≡ record db { leases = update_where (active_with claim_token) f db.leases }

Holds-make :
    (db : Db) (t : String) (l : WorkerLease)
    → count (active_with t) db.leases ≡ 1
    → find (active_with t) db.leases ≡ some l
    → Holds db t l
Holds-make db t l one found = record {
  one = one;
  found = found;
  token = ground (arith, find-holds (active_with t) db.leases l found, eq_iff l.claim_token t);
}

pub get_by_token_lem :
    (t : String) (db db' : Db) (l : WorkerLease)
    → get_active_lease_by_claim_token t db ≡ ok (some l, db')
    → Holds db t l × (db' ≡ db)
unfolding get_active_lease_by_claim_token
get_by_token_lem t db db' l eq = elim (scalar-cases (active_with t) db.leases) [
  | inl (m, got, one, found) ↦ (Holds-make db t l one (ground arith), ground arith)
  | inr (inl (got, _)) ↦ absurd (ground arith)
  | inr (inr got) ↦ absurd (ground arith)
]

pub extend_lease_lem :
    (utcnow : Time) (t w : String) (e : Time) (h : Option Time) (db db' : Db) (l' : WorkerLease)
    → extend_lease utcnow t w e h db ≡ ok (l', db')
    → (x : Wrote t (extended e h utcnow) db l' db') × (x.row.worker_id ≡ w)
      × (leb_ℤ x.row.max_extensions (pos x.row.extension_count) ≡ false)
unfolding extend_lease
extend_lease_lem utcnow t w e h db db' l' eq = elim (scalar-cases (active_with t) db.leases) [
  | inl (l, got, one, found) ↦
      let held : Holds db t l = Holds-make db t l one found in
      (
        record { row = l; held = held; result = ground arith; after = ground (arith, held.token) },
        ground (arith, eq_iff l.worker_id w),
        ground arith,
      )
  | inr (inl (got, _)) ↦ absurd (ground arith)
  | inr (inr got) ↦ absurd (ground arith)
]

pub release_lease_lem :
    (utcnow : Time) (t w : String) (at : Option Time) (db db' : Db) (l' : WorkerLease)
    → release_lease utcnow t w at db ≡ ok (l', db')
    → (x : Wrote t (released at utcnow) db l' db') × (x.row.worker_id ≡ w)
unfolding release_lease
release_lease_lem utcnow t w at db db' l' eq = elim (scalar-cases (active_with t) db.leases) [
  | inl (l, got, one, found) ↦
      let held : Holds db t l = Holds-make db t l one found in
      (
        record { row = l; held = held; result = ground arith; after = ground (arith, held.token) },
        ground (arith, eq_iff l.worker_id w),
      )
  | inr (inl (got, _)) ↦ absurd (ground arith)
  | inr (inr got) ↦ absurd (ground arith)
]

pub expire_lease_lem :
    (utcnow : Time) (t : String) (at : Option Time) (db db' : Db) (l' : WorkerLease)
    → expire_lease utcnow t at db ≡ ok (l', db')
    → Wrote t (expired at utcnow) db l' db'
unfolding expire_lease
expire_lease_lem utcnow t at db db' l' eq = elim (scalar-cases (active_with t) db.leases) [
  | inl (l, got, one, found) ↦
      let held : Holds db t l = Holds-make db t l one found in
      record { row = l; held = held; result = ground arith; after = ground (arith, held.token) }
  | inr (inl (got, _)) ↦ absurd (ground arith)
  | inr (inr got) ↦ absurd (ground arith)
]

pub create_lease_lem :
    (l l' : WorkerLease) (db db' : Db)
    → create_lease l db ≡ ok (l', db')
    → (l' ≡ l) × (db' ≡ record db { leases = db.leases ++ l ∷ [] })
unfolding create_lease
create_lease_lem l l' db db' eq = (ground arith, ground arith)

-- The ids of a new lease were free.
pub create_lease-free :
    (l l' : WorkerLease) (db db' : Db)
    → create_lease l db ≡ ok (l', db')
    → any (collides l) db.leases ≡ false
unfolding create_lease
create_lease-free l l' db db' eq = ground arith

-- A new lease passed the check of its table.
pub create_lease-checks :
    (l l' : WorkerLease) (db db' : Db)
    → create_lease l db ≡ ok (l', db')
    → leb_ℤ (pos 0) l.max_extensions ≡ true
unfolding create_lease lease_checks
create_lease-checks l l' db db' eq = ground arith

pub create_lease-fits :
    (l l' : WorkerLease) (db db' : Db) → create_lease l db ≡ ok (l', db') → lease_fits l ≡ true
unfolding create_lease
create_lease-fits l l' db db' eq = ground arith
