-- ===== src/Attempts/Effects.antt =====
-- What each operation of JobAttemptRepository has found and changed when it returns.
use ai_video_replication.Common.{
  ◌≡◌, inl, inr, true, false, Option, some, String, eq_iff, arith, count, find, find-holds,
  update_where, ◌++◌, ◌∷◌, [], any,
}
use ai_video_replication.Common.Json.{Dict}
use ai_video_replication.Enums.{AttemptStatus}
use ai_video_replication.Store.{
  Time, JobAttempt, Db, ok, scalar-cases, attempt_checks, attempt_fits,
}
use ai_video_replication.Attempts.{
  Report, has_id, collides, started, completed, errored, timed_out, create_attempt,
  get_attempt_by_attempt_id, mark_started, mark_completed, mark_failed, mark_stale, mark_timed_out,
}

pub record IsRow (db : Db) (attempt_id : String) (a : JobAttempt) : Type 0 where
  pub one : count (has_id attempt_id) db.attempts ≡ 1
  pub found : find (has_id attempt_id) db.attempts ≡ some a
  pub id : a.attempt_id ≡ attempt_id

-- The row that was found, and its change, which is all that changed.
pub record Wrote (attempt_id : String) (f : JobAttempt → JobAttempt) (db : Db) (a' : JobAttempt)
    (db' : Db) : Type 0 where
  pub row : JobAttempt
  pub is_row : IsRow db attempt_id row
  pub result : a' ≡ f row
  pub after : db' ≡ record db { attempts = update_where (has_id attempt_id) f db.attempts }

IsRow-make :
    (db : Db) (k : String) (a : JobAttempt)
    → count (has_id k) db.attempts ≡ 1
    → find (has_id k) db.attempts ≡ some a
    → IsRow db k a
IsRow-make db k a one found = record {
  one = one;
  found = found;
  id = ground (arith, find-holds (has_id k) db.attempts a found, eq_iff a.attempt_id k);
}

pub get_by_id_lem :
    (k : String) (db db' : Db) (a : JobAttempt)
    → get_attempt_by_attempt_id k db ≡ ok (some a, db')
    → IsRow db k a × (db' ≡ db)
unfolding get_attempt_by_attempt_id
get_by_id_lem k db db' a eq = elim (scalar-cases (has_id k) db.attempts) [
  | inl (m, got, one, found) ↦ (IsRow-make db k a one (ground arith), ground arith)
  | inr (inl (got, _)) ↦ absurd (ground arith)
  | inr (inr got) ↦ absurd (ground arith)
]

pub create_attempt_lem :
    (a a' : JobAttempt) (db db' : Db)
    → create_attempt a db ≡ ok (a', db')
    → (a' ≡ a)
      × (any (collides a) db.attempts ≡ false)
      × (db' ≡ record db { attempts = db.attempts ++ a ∷ [] })
unfolding create_attempt
create_attempt_lem a a' db db' eq = (ground arith, ground arith, ground arith)

pub mark_started_lem :
    (utcnow : Time) (k : String) (t w : Option String) (at : Option Time) (db db' : Db)
    (a' : JobAttempt)
    → mark_started utcnow k t w at db ≡ ok (a', db')
    → Wrote k (started at utcnow) db a' db'
unfolding mark_started
mark_started_lem utcnow k t w at db db' a' eq = elim (scalar-cases (has_id k) db.attempts) [
  | inl (a, got, one, found) ↦
      let is_row : IsRow db k a = IsRow-make db k a one found in
      record { row = a; is_row = is_row; result = ground arith; after = ground (arith, is_row.id) }
  | inr (inl (got, _)) ↦ absurd (ground arith)
  | inr (inr got) ↦ absurd (ground arith)
]

pub mark_completed_lem :
    (utcnow : Time) (k c : String) (at : Option Time) (r : Report) (db db' : Db) (a' : JobAttempt)
    → mark_completed utcnow k c at r db ≡ ok (a', db')
    → Wrote k (completed c at utcnow r) db a' db'
unfolding mark_completed
mark_completed_lem utcnow k c at r db db' a' eq = elim (scalar-cases (has_id k) db.attempts) [
  | inl (a, got, one, found) ↦
      let is_row : IsRow db k a = IsRow-make db k a one found in
      record { row = a; is_row = is_row; result = ground arith; after = ground (arith, is_row.id) }
  | inr (inl (got, _)) ↦ absurd (ground arith)
  | inr (inr got) ↦ absurd (ground arith)
]

pub mark_failed_lem :
    (utcnow : Time) (k : String) (c m : Option String) (p : Option Dict) (at : Option Time)
    (db db' : Db) (a' : JobAttempt)
    → mark_failed utcnow k c m p at db ≡ ok (a', db')
    → Wrote k (errored AttemptStatus.failed c m p at utcnow) db a' db'
unfolding mark_failed
mark_failed_lem utcnow k c m p at db db' a' eq = elim (scalar-cases (has_id k) db.attempts) [
  | inl (a, got, one, found) ↦
      let is_row : IsRow db k a = IsRow-make db k a one found in
      record { row = a; is_row = is_row; result = ground arith; after = ground (arith, is_row.id) }
  | inr (inl (got, _)) ↦ absurd (ground arith)
  | inr (inr got) ↦ absurd (ground arith)
]

pub mark_stale_lem :
    (utcnow : Time) (k c : String) (m : Option String) (p : Option Dict) (at : Option Time)
    (db db' : Db) (a' : JobAttempt)
    → mark_stale utcnow k c m p at db ≡ ok (a', db')
    → Wrote k (errored AttemptStatus.stale (some c) m p at utcnow) db a' db'
unfolding mark_stale
mark_stale_lem utcnow k c m p at db db' a' eq = elim (scalar-cases (has_id k) db.attempts) [
  | inl (a, got, one, found) ↦
      let is_row : IsRow db k a = IsRow-make db k a one found in
      record { row = a; is_row = is_row; result = ground arith; after = ground (arith, is_row.id) }
  | inr (inl (got, _)) ↦ absurd (ground arith)
  | inr (inr got) ↦ absurd (ground arith)
]

pub mark_timed_out_lem :
    (utcnow : Time) (k c : String) (m : Option String) (at : Option Time) (db db' : Db)
    (a' : JobAttempt)
    → mark_timed_out utcnow k c m at db ≡ ok (a', db')
    → Wrote k (timed_out c m at utcnow) db a' db'
unfolding mark_timed_out
mark_timed_out_lem utcnow k c m at db db' a' eq = elim (scalar-cases (has_id k) db.attempts) [
  | inl (a, got, one, found) ↦
      let is_row : IsRow db k a = IsRow-make db k a one found in
      record { row = a; is_row = is_row; result = ground arith; after = ground (arith, is_row.id) }
  | inr (inl (got, _)) ↦ absurd (ground arith)
  | inr (inr got) ↦ absurd (ground arith)
]

-- A new attempt passed the checks of its table, and fits its columns.
pub create_attempt-checks :
    (a a' : JobAttempt) (db db' : Db) → create_attempt a db ≡ ok (a', db') → attempt_checks a ≡ true
unfolding create_attempt
create_attempt-checks a a' db db' eq = ground arith

pub create_attempt-fits :
    (a a' : JobAttempt) (db db' : Db) → create_attempt a db ≡ ok (a', db') → attempt_fits a ≡ true
unfolding create_attempt
create_attempt-fits a a' db db' eq = ground arith
