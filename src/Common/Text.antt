-- ===== src/Common/Text.antt =====
-- Texts as sequences of code points: `str(exc)`, f-strings, `startswith` and the operator `in`.
use Prim.Native.Char.{code}
use Prim.Native.String.{String}
use mathlib.Core.Path.{◌≡◌, refl}
use mathlib.Core.Bool.{Bool, true, false, ◌||◌}
use mathlib.Core.List.{List, [], ◌∷◌, ◌++◌}
use native.Mathlib.Omega.{arith}
use Prim.Native.Nat.{ℕ, zero, suc, ◌+◌, ◌/◌, ◌%◌}
use ai_video_replication.Common.Ints.{ℤ, pos, negsuc}
use ai_video_replication.Common.Tests.{ltb, nat_eq, if◌then◌else◌}

abbrev pub Text : Type 0
Text = List ℕ

abbrev pub codes : String → Text
codes String.[] = []
codes (String.◌∷◌ c s) = code c ∷ codes s

-- The decimal digits of a number, in front of `rest`. `n` has at most `n + 1` digits.
digits_before : ℕ → ℕ → Text → Text
digits_before zero n rest = rest
digits_before (suc fuel) n rest =
    let more = digits_before fuel (n / 10) ((48 + n % 10) ∷ rest) in
    if ltb n 10 then (48 + n) ∷ rest else more

-- `str(n)`
unfoldable pub decimal : ℤ → Text
unfolding digits_before
decimal (pos n) = digits_before (suc n) n []
decimal (negsuc n) = b'-' ∷ digits_before (suc (suc n)) (suc n) []

-- `message.startswith(part)`
unfoldable pub begins_with : Text → Text → Bool
begins_with m [] = true
begins_with [] (c ∷ part) = false
begins_with (d ∷ m) (c ∷ part) = if nat_eq d c then begins_with m part else false

-- `part in message`
unfoldable pub contains : Text → Text → Bool
contains [] part = begins_with [] part
contains (d ∷ m) part = begins_with (d ∷ m) part || contains m part

-- `a == b` on texts
unfoldable pub is_text : Text → Text → Bool
is_text [] [] = true
is_text [] (c ∷ part) = false
is_text (d ∷ m) [] = false
is_text (d ∷ m) (c ∷ part) = if nat_eq d c then is_text m part else false

pub begins_with-append : (part m : Text) → begins_with (part ++ m) part ≡ true
unfolding begins_with
begins_with-append [] m = refl
begins_with-append (c ∷ part) m = ground (arith, begins_with-append part m)

contains-nil : (m : Text) → contains m [] ≡ true
unfolding contains begins_with
contains-nil [] = refl
contains-nil (d ∷ m) = refl

-- A text that holds the part somewhere contains it, whatever stands around it.
pub contains-append : (l part r : Text) → contains (l ++ (part ++ r)) part ≡ true
unfolding contains
contains-append [] [] r = contains-nil r
contains-append [] (c ∷ part) r = ground (arith, begins_with-append (c ∷ part) r)
contains-append (d ∷ l) part r = ground (arith, contains-append l part r)
