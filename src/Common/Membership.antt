-- ===== src/Common/Membership.antt =====
-- Membership in a list of rows, as a sum over the positions, and what a unique key makes of it.
use Prim.Native.Nat.{ℕ, zero, suc, ◌≤◌}
use mathlib.Core.Path.{◌≡◌, refl}
use mathlib.Core.Logic.{◌⊎◌, inl, inr}
use mathlib.Core.Bool.{Bool, true, false}
use mathlib.Core.Option.{some}
use mathlib.Core.List.{List, [], ◌∷◌}
use native.Mathlib.Omega.{arith}
use ai_video_replication.Common.Tests.{Bool-cases}
use ai_video_replication.Common.Rows.{select, count, find, take, any, update_where}

module _ {A : Type 0} where
  abbrev pub In : A → List A → Type 0
  In a [] = ⊥
  In a (x ∷ xs) = (x ≡ a) ⊎ In a xs

module _ {A : Type 0} where
  pub In-take : (n : ℕ) (xs : List A) (a : A) → In a (take n xs) → In a xs
  In-take zero xs a h = elim h [ ]
  In-take (suc n) [] a h = h
  In-take (suc n) (x ∷ xs) a (inl e) = inl e
  In-take (suc n) (x ∷ xs) a (inr h) = inr (In-take n xs a h)

  pub In-select : (p : A → Bool) (xs : List A) (a : A) → In a (select p xs) → In a xs × (p a ≡ true)
  In-select p [] a h = elim h [ ]
  In-select p (x ∷ xs) a h = elim (Bool-cases (p x)) [
    | inl e ↦ elim (let m : In a (x ∷ select p xs) = rw (e, select) at h in m) [
      | inl same ↦ (inl same, rw same at e)
      | inr m ↦ (inr (In-select p xs a m).0, (In-select p xs a m).1)
    ]
    | inr e ↦
        let m : In a (select p xs) = rw (e, select) at h in
        (inr (In-select p xs a m).0, (In-select p xs a m).1)
  ]

  pub In-find : (p : A → Bool) (xs : List A) (a : A) → find p xs ≡ some a → In a xs
  In-find p [] a h = cc
  In-find p (x ∷ xs) a h = ground (arith, In-find p xs a)

  pub count-pos : (p : A → Bool) (xs : List A) (a : A) → In a xs → p a ≡ true → 1 ≤ count p xs
  count-pos p [] a h e = elim h [ ]
  count-pos p (x ∷ xs) a (inl same) e = ground arith
  count-pos p (x ∷ xs) a (inr h) e = ground (arith, count-pos p xs a h)

  -- With at most one row that passes, the row at hand is the one that is found.
  pub find_unique :
      (p : A → Bool) (xs : List A) (a : A)
      → count p xs ≤ 1
      → In a xs
      → p a ≡ true
      → find p xs ≡ some a
  find_unique p [] a u h e = elim h [ ]
  find_unique p (x ∷ xs) a u (inl same) e = ground arith
  find_unique p (x ∷ xs) a u (inr h) e = ground (arith, count-pos p xs a h, find_unique p xs a)

  pub count-none_of_any : (p : A → Bool) (xs : List A) → any p xs ≡ false → count p xs ≡ 0
  count-none_of_any p [] h = refl
  count-none_of_any p (x ∷ xs) h = ground (arith, count-none_of_any p xs)

  pub count-update_keep :
      (p q : A → Bool) (f : A → A) (xs : List A)
      → ((a : A) → q (f a) ≡ q a)
      → count q (update_where p f xs) ≡ count q xs
  count-update_keep p q f [] k = refl
  count-update_keep p q f (x ∷ xs) k = ground (arith, k x, count-update_keep p q f xs k)
