-- ===== src/Common/Tests.antt =====
-- Boolean tests, the conditional, and the splits on computed values. Python's `==` on str, int and
-- bool is one operator over the interface `Eq`.
use Prim.Native.Nat.{ℕ, compare, Ordering}
use Prim.Native.String.{String}
use mathlib.Core.Path.{◌≡◌, refl}
use mathlib.Core.Logic.{◌↔◌, ◌⊎◌, inl, inr}
use mathlib.Core.Bool.{Bool, true, false, not}
use mathlib.Core.Option.{Option, none, some}
use native.Mathlib.Omega.{arith}
use text.Mathlib.Text.{◌==◌ as str_eq}
use text.Mathlib.TextEquality.{eq_iff as str_eq_iff}

abbrev pub ltb : ℕ → ℕ → Bool
ltb a b = elim (compare a b) [ Ordering.lt ↦ true | _ ↦ false ]

abbrev pub leb : ℕ → ℕ → Bool
leb a b = elim (compare a b) [ Ordering.gt ↦ false | _ ↦ true ]

abbrev pub nat_eq : ℕ → ℕ → Bool
nat_eq a b = elim (compare a b) [ Ordering.eq ↦ true | _ ↦ false ]

infix 50 ◌==◌
abbrev pub ◌==◌ : String → String → Bool
◌==◌ = str_eq

pub eq_iff : (s t : String) → ((s == t) ≡ true) ↔ (s ≡ t)
eq_iff = str_eq_iff

infix 1 if◌then◌else◌
abbrev pub if◌then◌else◌ {ℓ} : {A : Type ℓ} → Bool → A → A → A
if true then x else y = x
if false then x else y = y

pub nat_eq_iff : (a b : ℕ) → (nat_eq a b ≡ true) ↔ (a ≡ b)
nat_eq_iff a b = ground arith

pub Bool-cases : (b : Bool) → (b ≡ true) ⊎ (b ≡ false)
Bool-cases true = inl refl
Bool-cases false = inr refl

pub Option-cases {ℓ} : {A : Type ℓ} (o : Option A) → (o ≡ none) ⊎ ((a : A) × (o ≡ some a))
Option-cases none = inl refl
Option-cases (some a) = inr (a, refl)

module _ {ℓ} {A : Type ℓ} where
  -- Python's `a or b` where `a` is None or a value that is never false.
  abbrev pub or_else : Option A → A → A
  or_else none d = d
  or_else (some a) d = a

  -- `a if a is not None else b`, `a or b` on two optional values of that kind.
  abbrev pub or_option : Option A → Option A → Option A
  or_option none b = b
  or_option (some a) b = some a

-- `==` of an optional text with a text.
abbrev pub option_is : Option String → String → Bool
option_is none t = false
option_is (some s) t = s == t

-- Whether a text is true in a condition: the empty one is not.
abbrev pub truthy : String → Bool
truthy String.[] = false
truthy (String.◌∷◌ c s) = true

-- `a or b` where `a` is None or a text.
abbrev pub or_text : Option String → Option String → Option String
or_text none b = b
or_text (some s) b = if truthy s then some s else b

-- `a or b` where `b` is a text.
abbrev pub or_str : Option String → String → String
or_str none b = b
or_str (some s) b = if truthy s then s else b

-- `if x:` on an optional text: None and the empty text are passed over.
abbrev pub given : Option String → Option String
given none = none
given (some s) = if truthy s then some s else none

pub not-false : (b : Bool) → not b ≡ false → b ≡ true
not-false true h = refl
not-false false h = cc
