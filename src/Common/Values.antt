-- ===== src/Common/Values.antt =====
-- Python's conditions, `str()` and `int()` on JSON values.
use Prim.Native.Char.{code}
use Prim.Native.Nat.{ℕ, zero, suc, ◌+◌, ◌-◌, ◌*◌}
use Prim.Native.String.{String}
use mathlib.Core.Bool.{Bool, true, false, not, ◌&&◌, ◌||◌}
use mathlib.Core.Option.{Option, none, some}
use ai_video_replication.Common.Ints.{ℤ, pos, negsuc, leb_ℤ}
use ai_video_replication.Common.Tests.{◌==◌, truthy, leb, nat_eq, if◌then◌else◌}
use ai_video_replication.Common.Json.{
  Json, null, boolean, int, decimal, str, moment, arr, obj, nil, cons, empty, entry,
}
use ai_video_replication.Common.Strings.{strip, str_ℤ}

-- `if value:`
abbrev pub truthy_json : Json → Bool
truthy_json null = false
truthy_json (boolean b) = b
truthy_json (int (pos n)) = not (leb_ℤ (pos n) (pos 0))
truthy_json (int (negsuc n)) = true
truthy_json (decimal t) = not (t == "0.0" || t == "-0.0")
truthy_json (str s) = truthy s
truthy_json (moment t) = true
truthy_json (arr nil) = false
truthy_json (arr (cons x xs)) = true
truthy_json (obj empty) = false
truthy_json (obj (entry k v d)) = true

-- `d.get(key)` where only a true value counts
abbrev pub given_json : Option Json → Option Json
given_json none = none
given_json (some v) = if truthy_json v then some v else none

-- `a or b`
abbrev pub or_json : Option Json → Option Json → Option Json
or_json none b = b
or_json (some v) b = if truthy_json v then some v else b

-- `str(value)`; `repr` is the text of a list, a dict and a time.
unfoldable pub str_json : (Json → String) → Json → String
str_json repr null = "None"
str_json repr (boolean true) = "True"
str_json repr (boolean false) = "False"
str_json repr (int n) = str_ℤ n
str_json repr (decimal t) = t
str_json repr (str s) = s
str_json repr (moment t) = repr (moment t)
str_json repr (arr xs) = repr (arr xs)
str_json repr (obj d) = repr (obj d)

abbrev pub is_digit : ℕ → Bool
is_digit c = leb 48 c && leb c 57

-- The number that a text of digits stands for, with one `_` allowed between two of them.
unfoldable pub digits_value : ℕ → Bool → String → Option ℕ
digits_value n ready String.[] = if ready then some n else none
digits_value n ready (String.◌∷◌ c s) =
    let more = digits_value (10 * n + (code c - 48)) true s in
    let after = digits_value n false s in
    if is_digit (code c) then more else if ready && nat_eq (code c) b'_' then after else none

abbrev pub signed : Bool → Option ℕ → Option ℤ
signed negative none = none
signed true (some zero) = some (pos 0)
signed true (some (suc n)) = some (negsuc n)
signed false (some n) = some (pos n)

-- `int(s)` of a text
unfoldable pub parse_int : String → Option ℤ
unfolding digits_value
parse_int String.[] = none
parse_int (String.◌∷◌ c s) =
    if nat_eq (code c) b'-'
    then signed true (digits_value 0 false s)
    else if nat_eq (code c) b'+'
    then signed false (digits_value 0 false s)
    else signed false (digits_value 0 false (String.◌∷◌ c s))

-- The whole part of a number with a fraction, `n` being its digits so far.
unfoldable pub whole_part : ℕ → String → ℕ
whole_part n String.[] = n
whole_part n (String.◌∷◌ c s) =
    let more = whole_part (10 * n + (code c - 48)) s in if is_digit (code c) then more else n

-- `int(x)` of a float, written without an exponent
unfoldable pub truncate : String → Option ℤ
unfolding whole_part
truncate String.[] = none
truncate (String.◌∷◌ c s) =
    if nat_eq (code c) b'-'
    then signed true (some (whole_part 0 s))
    else some (pos (whole_part 0 (String.◌∷◌ c s)))

-- `int(value)`, none where it raises ValueError or TypeError
unfoldable pub int_of : Json → Option ℤ
unfolding parse_int truncate strip
int_of (boolean true) = some (pos 1)
int_of (boolean false) = some (pos 0)
int_of (int n) = some n
int_of (decimal t) = truncate t
int_of (str s) = parse_int (strip s)
int_of null = none
int_of (moment t) = none
int_of (arr xs) = none
int_of (obj d) = none
