-- ===== src/Common/Rows.antt =====
-- Tables as lists of rows: selection, counting, and the update of the selected rows. The laws say
-- what an update that meets one row does to a count and to a look-up.
use Prim.Native.Nat.{ℕ, zero, suc, ◌+◌}
use mathlib.Core.Path.{◌≡◌, refl}
use mathlib.Core.Bool.{Bool, true, false}
use mathlib.Core.Option.{Option, none, some}
use mathlib.Core.List.{List, [], ◌∷◌, ◌++◌}
use mathlib.Core.Logic.{inl, inr}
use Prim.Native.String.{String}
use native.Mathlib.Omega.{arith}
use ai_video_replication.Common.Tests.{◌==◌, eq_iff, Bool-cases, if◌then◌else◌}

abbrev pub bit : Bool → ℕ
bit true = 1
bit false = 0

module _ {ℓ} {A : Type ℓ} where
  abbrev pub length : List A → ℕ
  length [] = 0
  length (x ∷ xs) = suc (length xs)

  pub length-append : (xs ys : List A) → length (xs ++ ys) ≡ length xs + length ys
  length-append [] ys = omega arith
  length-append (x ∷ xs) ys = omega (arith, length-append xs ys)

  abbrev pub select : (A → Bool) → List A → List A
  select p [] = []
  select p (x ∷ xs) = if p x then x ∷ select p xs else select p xs

  abbrev pub count : (A → Bool) → List A → ℕ
  count p [] = 0
  count p (x ∷ xs) = bit (p x) + count p xs

  abbrev pub find : (A → Bool) → List A → Option A
  find p [] = none
  find p (x ∷ xs) = if p x then some x else find p xs

  abbrev pub update_where : (A → Bool) → (A → A) → List A → List A
  update_where p f [] = []
  update_where p f (x ∷ xs) = (if p x then f x else x) ∷ update_where p f xs

  abbrev pub any : (A → Bool) → List A → Bool
  any p [] = false
  any p (x ∷ xs) = if p x then true else any p xs

  abbrev pub all : (A → Bool) → List A → Bool
  all p [] = true
  all p (x ∷ xs) = if p x then all p xs else false

  abbrev pub All {κ} : (A → Type κ) → List A → Type κ
  All P [] = Unit
  All P (x ∷ xs) = P x × All P xs

  abbrev pub take : ℕ → List A → List A
  take zero xs = []
  take (suc n) [] = []
  take (suc n) (x ∷ xs) = x ∷ take n xs

module _ {ℓ} {A : Type ℓ} where
  pub length-select : (p : A → Bool) (xs : List A) → length (select p xs) ≡ count p xs
  length-select p [] = refl
  length-select p (x ∷ xs) = ground (arith, length-select p xs)

  pub find-none : (p : A → Bool) (xs : List A) → count p xs ≡ 0 → find p xs ≡ none
  find-none p [] h = refl
  find-none p (x ∷ xs) h = ground (arith, find-none p xs)

  pub find-holds : (p : A → Bool) (xs : List A) (a : A) → find p xs ≡ some a → p a ≡ true
  find-holds p [] a h = cc
  find-holds p (x ∷ xs) a h = ground (arith, find-holds p xs a)

  pub count-append : (p : A → Bool) (xs ys : List A) → count p (xs ++ ys) ≡ count p xs + count p ys
  count-append p [] ys = omega arith
  count-append p (x ∷ xs) ys = omega (arith, count-append p xs ys)

  pub count-update_none :
      (p q : A → Bool) (f : A → A) (xs : List A)
      → count p xs ≡ 0
      → count q (update_where p f xs) ≡ count q xs
  count-update_none p q f [] h = refl
  count-update_none p q f (x ∷ xs) h = ground (arith, count-update_none p q f xs)

  -- An update that meets exactly one row changes a count by what that row counts for.
  pub count-update :
      (p q : A → Bool) (f : A → A) (xs : List A) (a : A)
      → count p xs ≡ 1
      → find p xs ≡ some a
      → count q (update_where p f xs) + bit (q a) ≡ count q xs + bit (q (f a))
  count-update p q f [] a h e = absurd (omega arith)
  count-update p q f (x ∷ xs) a h e =
      ground (arith, count-update p q f xs a, count-update_none p q f xs)

  -- A look-up that the update cannot affect.
  pub find-update_other :
      (p q : A → Bool) (f : A → A) (xs : List A)
      → ((a : A) → q (f a) ≡ q a)
      → ((a : A) → p a ≡ true → q a ≡ false)
      → find q (update_where p f xs) ≡ find q xs
  find-update_other p q f [] k h = refl
  find-update_other p q f (x ∷ xs) k h = ground (arith, k x, h x, find-update_other p q f xs k h)

  -- A look-up by the key that the update keeps.
  pub find-update_same :
      (p : A → Bool) (f : A → A) (xs : List A) (a : A)
      → ((b : A) → p (f b) ≡ p b)
      → find p xs ≡ some a
      → find p (update_where p f xs) ≡ some (f a)
  find-update_same p f [] a k e = cc
  find-update_same p f (x ∷ xs) a k e = ground (arith, k x, find-update_same p f xs a k)

  pub find-append :
      (p : A → Bool) (xs : List A) (y : A)
      → find p (xs ++ y ∷ [])
        ≡ (elim (find p xs) [ none ↦ if p y then some y else none | some a ↦ some a ])
  find-append p [] y = refl
  find-append p (x ∷ xs) y = ground (arith, find-append p xs y)

-- Tables keyed by a text column that the update keeps.
module _ {ℓ} {A : Type ℓ} (key : A → String) where
  abbrev pub keyed : String → A → Bool
  keyed k a = key a == k

  keyed_other : (k j : String) → (k == j) ≡ false → (b : A) → keyed k b ≡ true → keyed j b ≡ false
  keyed_other k j ne b h = ground (arith, eq_iff (key b) k, eq_iff (key b) j, eq_iff k j)

  -- The written row is found under its key, and every other row as before.
  pub find-write :
      (k j : String) (f : A → A) (xs : List A) (a : A)
      → ((b : A) → key (f b) ≡ key b)
      → find (keyed k) xs ≡ some a
      → find (keyed j) (update_where (keyed k) f xs)
        ≡ (if k == j then some (f a) else find (keyed j) xs)
  find-write k j f xs a keep e = elim (Bool-cases (k == j)) [
    | inl same ↦
        rw (same, ← (eq_iff k j).0 same) (find-update_same (keyed k) f xs a (λ b. rw (keep b)) e)
    | inr ne ↦
        rw ne (find-update_other (keyed k) (keyed j) f xs (λ b. rw (keep b)) (keyed_other k j ne))
  ]
