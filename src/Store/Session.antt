-- ===== src/Store/Session.antt =====
-- The session: exceptions of app/services/runtime_errors.py and of SQLAlchemy, statements on the
-- tables, and `with self.db.begin()`, which commits, or rolls back and lets the exception go on.
use ai_video_replication.Common.{
  Bool, true, false, Option, none, some, List, [], ◌∷◌, ◌≡◌, refl, arith, select, count, find,
  length-select, ◌⊎◌, inl, inr,
}
use ai_video_replication.Common.Text.{Text}
use ai_video_replication.Store.Rows.{Db}

-- `lease_conflict` and `state_conflict` are RuntimeLeaseConflictError and
-- RuntimeStateConflictError; the last three are SQLAlchemy's.
pub data Exn : Type 0 where
  value_error : Text → Exn
  lease_conflict : Text → Exn
  state_conflict : Text → Exn
  integrity_error : Exn
  data_error : Exn
  multiple_results_found : Exn

pub data Result (A : Type 0) : Type 0 where
  ok : A → Result A
  err : Exn → Result A

abbrev pub M : Type 0 → Type 0
M A = Db → Result (A × Db)

infixl 5 ◌>>=◌ ◌>>◌
abbrev pub ◌>>=◌ : {A B : Type 0} → M A → (A → M B) → M B
◌>>=◌ m f db = elim (m db) [ ok (a, db') ↦ f a db' | err e ↦ err e ]

abbrev pub ◌>>◌ : {A B : Type 0} → M A → M B → M B
m >> k = m >>= λ _. k

module _ {A : Type 0} where
  abbrev pub pure : A → M A
  pure a db = ok (a, db)

  abbrev pub raise : Exn → M A
  raise e db = err e

  -- `if x is None: raise e`
  abbrev pub present : Option A → Exn → M A
  present none e db = err e
  present (some a) e db = ok (a, db)

abbrev pub raise_if : Bool → Exn → M (Unit {0})
raise_if true e db = err e
raise_if false e db = ok (tt, db)

-- `with self.db.begin()`: what the request sees, and the database that is left.
unfoldable pub transaction : {A : Type 0} → M A → Db → Result A × Db
transaction m db = elim (m db) [ ok (a, db') ↦ (ok a, db') | err e ↦ (err e, db) ]

-- `except ValueError as exc: raise self._map_repository_value_error(exc) from exc`
abbrev pub map_value_error : {A : Type 0} → (Text → Exn) → M A → M A
map_value_error f m db = elim (m db) [
  | ok r ↦ ok r
  | err e ↦ err (elim e [
    | value_error t ↦ f t
    | lease_conflict t ↦ lease_conflict t
    | state_conflict t ↦ state_conflict t
    | integrity_error ↦ integrity_error
    | data_error ↦ data_error
    | multiple_results_found ↦ multiple_results_found
  ])
]

-- A guard that lets a call through did not hold.
pub raise_if-ok :
    {B : Type 0} (c : Bool) (e : Exn) (k : M B) (db : Db) (r : B × Db)
    → (raise_if c e >> k) db ≡ ok r
    → (c ≡ false) × (k db ≡ ok r)
raise_if-ok true e k db r h = cc
raise_if-ok false e k db r h = (refl, h)

pub raise_if-last :
    (c : Bool) (e : Exn) (db db' : Db) (u : Unit {0})
    → raise_if c e db ≡ ok (u, db')
    → (c ≡ false) × (db' ≡ db)
raise_if-last true e db db' u h = cc
raise_if-last false e db db' u h = (refl, ground arith)

pub present-ok :
    {A : Type 0} (o : Option A) (e : Exn) (db db' : Db) (a : A)
    → present o e db ≡ ok (a, db')
    → (o ≡ some a) × (db' ≡ db)
present-ok none e db db' a h = cc
present-ok (some b) e db db' a h = (ground arith, ground arith)

bind-then {ℓ} :
    {A B : Type 0} {P : Type ℓ} (x : Result (A × Db)) (k : A → M B) (r : B × Db)
    → (elim x [ ok (a, db') ↦ k a db' | err e ↦ err e ]) ≡ ok r
    → ((a : A) (db' : Db) → x ≡ ok (a, db') → k a db' ≡ ok r → P)
    → P
bind-then (ok (a, db')) k r h found = found a db' refl h
bind-then (err e) k r h found = cc

-- A sequence that returned: its first part did, and then its second.
pub >>=-then {ℓ} :
    {A B : Type 0} {P : Type ℓ} (m : M A) (k : A → M B) (db : Db) (r : B × Db)
    → (m >>= k) db ≡ ok r
    → ((a : A) (db' : Db) → m db ≡ ok (a, db') → k a db' ≡ ok r → P)
    → P
>>=-then m k db r h = bind-then (m db) k r h

commit_result {ℓ} :
    {A : Type 0} (P : Db → Type ℓ) (f : Text → Exn) (db : Db) (x : Result (A × Db))
    → P db
    → ((a : A) (db' : Db) → x ≡ ok (a, db') → P db')
    → P (transaction (map_value_error f (λ _. x)) db).1
unfolding transaction
commit_result P f db (ok (a, db')) h k = k a db' refl
commit_result P f db (err e) h k = h

-- After a transaction a property of the database holds if it held before, and if the body
-- establishes it where it returns: an exception of any kind restores the database.
pub commit {ℓ} :
    {A : Type 0} (P : Db → Type ℓ) (f : Text → Exn) (m : M A) (db : Db)
    → P db
    → ((a : A) (db' : Db) → m db ≡ ok (a, db') → P db')
    → P (transaction (map_value_error f m) db).1
unfolding transaction
commit P f m db h k = commit_result P f db (m db) h k

returned_result :
    {A : Type 0} (f : Text → Exn) (db db' : Db) (a : A) (x : Result (A × Db))
    → transaction (map_value_error f (λ _. x)) db ≡ (ok a, db')
    → x ≡ ok (a, db')
unfolding transaction
returned_result f db db' a (ok r) h = ground arith
returned_result f db db' a (err e) h = cc

-- A transaction that returns has run its body to the end.
pub returned :
    {A : Type 0} (f : Text → Exn) (m : M A) (db db' : Db) (a : A)
    → transaction (map_value_error f m) db ≡ (ok a, db')
    → m db ≡ ok (a, db')
unfolding transaction
returned f m db db' a h = returned_result f db db' a (m db) h

commit_plain_result {ℓ} :
    {A : Type 0} (P : Db → Type ℓ) (db : Db) (x : Result (A × Db))
    → P db
    → ((a : A) (db' : Db) → x ≡ ok (a, db') → P db')
    → P (transaction (λ _. x) db).1
unfolding transaction
commit_plain_result P db (ok (a, db')) h k = k a db' refl
commit_plain_result P db (err e) h k = h

-- The same where no exception is mapped.
pub commit_plain {ℓ} :
    {A : Type 0} (P : Db → Type ℓ) (m : M A) (db : Db)
    → P db
    → ((a : A) (db' : Db) → m db ≡ ok (a, db') → P db')
    → P (transaction m db).1
unfolding transaction
commit_plain P m db h k = commit_plain_result P db (m db) h k

-- `scalar_one_or_none()` on the rows of a statement
abbrev pub scalar_one_or_none : {A : Type 0} → List A → Result (Option A)
scalar_one_or_none [] = ok none
scalar_one_or_none (x ∷ []) = ok (some x)
scalar_one_or_none (x ∷ y ∷ rest) = err multiple_results_found

-- a statement that only reads
abbrev pub reads : {A : Type 0} → (Db → Result A) → M A
reads q db = elim (q db) [ ok a ↦ ok (a, db) | err e ↦ err e ]

module _ {A : Type 0} where
  select-single : (p : A → Bool) (xs : List A) (a : A) → select p xs ≡ a ∷ [] → find p xs ≡ some a
  select-single p [] a h = ground arith
  select-single p (x ∷ xs) a h = ground (arith, select-single p xs a)

  -- What a statement that finds one row says of the table.
  pub scalar-some :
      (p : A → Bool) (xs : List A) (a : A)
      → scalar_one_or_none (select p xs) ≡ ok (some a)
      → (count p xs ≡ 1) × (find p xs ≡ some a)
  scalar-some p xs a h = ground (arith, length-select p xs, select-single p xs a)

  pub scalar-none :
      (p : A → Bool) (xs : List A) → scalar_one_or_none (select p xs) ≡ ok none → count p xs ≡ 0
  scalar-none p xs h = ground (arith, length-select p xs)

  pub scalar-of_one :
      (p : A → Bool) (xs : List A) (a : A)
      → count p xs ≡ 1
      → find p xs ≡ some a
      → scalar_one_or_none (select p xs) ≡ ok (some a)
  scalar-of_one p xs a h e = go (select p xs) refl
    where
      go : (ys : List A) → select p xs ≡ ys → scalar_one_or_none ys ≡ ok (some a)
      go [] s = ground (arith, length-select p xs)
      go (y ∷ []) s = ground (arith, select-single p xs y)
      go (y ∷ z ∷ ys) s = ground (arith, length-select p xs)

  pub scalar-of_none :
      (p : A → Bool) (xs : List A) → count p xs ≡ 0 → scalar_one_or_none (select p xs) ≡ ok none
  scalar-of_none p xs h = ground (arith, length-select p xs)

  -- The three ways in which such a statement ends.
  pub scalar-cases :
      (p : A → Bool) (xs : List A)
      → ((a : A) × (scalar_one_or_none (select p xs) ≡ ok (some a))
          × (count p xs ≡ 1)
          × (find p xs ≡ some a))
        ⊎ ((scalar_one_or_none (select p xs) ≡ ok none) × (count p xs ≡ 0))
        ⊎ (scalar_one_or_none (select p xs) ≡ err multiple_results_found)
  scalar-cases p xs = go (select p xs) refl
    where
      go :
          (ys : List A)
          → select p xs ≡ ys
          → ((a : A) × (scalar_one_or_none (select p xs) ≡ ok (some a))
              × (count p xs ≡ 1)
              × (find p xs ≡ some a))
            ⊎ ((scalar_one_or_none (select p xs) ≡ ok none) × (count p xs ≡ 0))
            ⊎ (scalar_one_or_none (select p xs) ≡ err multiple_results_found)
      go [] s = inr (inl (rw s, ground (arith, length-select p xs)))
      go (y ∷ []) s = inl (y, rw s, ground (arith, length-select p xs), select-single p xs y s)
      go (y ∷ z ∷ ys) s = inr (inr (rw s))
