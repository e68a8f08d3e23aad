-- ===== src/Projects/Session.antt =====
-- Statements that may raise, over a state that keeps what was done before the exception: the
-- exceptions of app/workers/executors.py, app/providers/google/client.py and minio, and what
-- `_extract_error_details` can find on them.
use ai_video_replication.Common.{Bool, true, false, Option, none, some, String}

-- Both provider errors have a code and a message. `value_error` and `failure`, any other exception,
-- have their `str(exc)`.
pub data Exn : Type 0 where
  provider_error : String → String → Exn
  value_error : String → Exn
  s3_error : Option String → Option String → String → Exn
  failure : String → Exn

pub data Outcome (A : Type 0) : Type 0 where
  returned : A → Outcome A
  raised : Exn → Outcome A

-- A chain of results without a state.
abbrev pub and_then : {A B : Type 0} → Outcome A → (A → Outcome B) → Outcome B
and_then (returned a) f = f a
and_then (raised e) f = raised e

abbrev pub need : {A : Type 0} → Option A → Exn → Outcome A
need none e = raised e
need (some a) e = returned a

abbrev pub guard : Bool → Exn → Outcome (Unit {0})
guard true e = raised e
guard false e = returned tt

abbrev pub M : Type 0 → Type 0 → Type 0
M S A = S → Outcome A × S

infixl 5 ◌>>=◌ ◌>>◌
abbrev pub ◌>>=◌ : {S A B : Type 0} → M S A → (A → M S B) → M S B
◌>>=◌ m f s = elim (m s).0 [ returned a ↦ f a (m s).1 | raised e ↦ (raised e, (m s).1) ]

abbrev pub ◌>>◌ : {S A B : Type 0} → M S A → M S B → M S B
m >> k = m >>= λ _. k

module _ {S A : Type 0} where
  abbrev pub pure : A → M S A
  pure a s = (returned a, s)

  -- a step that only computes
  abbrev pub lift : Outcome A → M S A
  lift x s = (x, s)
