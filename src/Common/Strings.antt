-- ===== src/Common/Strings.antt =====
-- Python's operations on str that the tasks, the executors and the provider client use: `+` and
-- f-strings, `strip`, `lower`, `startswith`, `endswith`, `str(n)`, `encode("utf-8")`.
use Prim.Native.Char.{Char, char, code, nul, IsLt}
use Prim.Native.Nat.{ℕ, zero, suc, ◌+◌, ◌/◌, ◌%◌, Ordering, compare}
use Prim.Native.String.{String, ◌++◌ as text_append}
use mathlib.Core.Bool.{Bool, true, not, ◌&&◌, ◌||◌}
use mathlib.Core.Option.{Option, none, some}
use mathlib.Core.List.{List, [], ◌∷◌}
use mathlib.Core.Path.{◌≡◌, refl}
use text.Mathlib.Text.{starts_with}
use ai_video_replication.Common.Ints.{ℤ, pos, negsuc}
use ai_video_replication.Common.Tests.{ltb, leb, nat_eq, truthy, if◌then◌else◌}

infixr 65 ◌<>◌
abbrev pub ◌<>◌ : String → String → String
◌<>◌ = text_append

-- `s.startswith(t)`
abbrev pub startswith : String → String → Bool
startswith = starts_with

-- The two families have the clauses of those under `IsScalar`.
abbrev BothLess : Ordering → Ordering → Type 0
BothLess Ordering.lt o = IsLt o
BothLess Ordering.eq _ = ⊥
BothLess Ordering.gt _ = ⊥

abbrev LessOr : Ordering → Ordering → Ordering → Type 0
LessOr Ordering.lt _ _ = Unit
LessOr Ordering.eq o p = BothLess o p
LessOr Ordering.gt o p = BothLess o p

-- A character from its number, NUL for a number that has none.
abbrev below : (o : Ordering) → (IsLt o → Char) → Char
below Ordering.lt k = k tt
below Ordering.eq k = nul
below Ordering.gt k = nul

abbrev between : (o p : Ordering) → (BothLess o p → Char) → Char
between Ordering.lt p k = below p k
between Ordering.eq p k = nul
between Ordering.gt p k = nul

abbrev scalar : (o p q : Ordering) → (LessOr o p q → Char) → Char
scalar Ordering.lt p q k = k tt
scalar Ordering.eq p q k = between p q k
scalar Ordering.gt p q k = between p q k

abbrev pub chr : ℕ → Char
chr n = scalar (compare n 55296) (compare 57343 n) (compare n 1114112) (char n)

-- A text of code points, as a str.
unfoldable pub str_of : List ℕ → String
str_of [] = String.[]
str_of (c ∷ t) = String.◌∷◌ (chr c) (str_of t)

-- `c.isspace()`
abbrev pub is_space : ℕ → Bool
is_space c =
    (leb 9 c && leb c 13)
    || ((leb 28 c && leb c 32)
        || (nat_eq c 133
            || (nat_eq c 160
                || (nat_eq c 5760
                    || ((leb 8192 c && leb c 8202)
                        || (nat_eq c 8232
                            || (nat_eq c 8233
                                || (nat_eq c 8239 || (nat_eq c 8287 || nat_eq c 12288)))))))))

unfoldable pub lstrip : String → String
lstrip String.[] = String.[]
lstrip (String.◌∷◌ c s) = if is_space (code c) then lstrip s else String.◌∷◌ c s

unfoldable pub rstrip : String → String
rstrip String.[] = String.[]
rstrip (String.◌∷◌ c s) =
    let rest = rstrip s in
    if not (truthy rest) && is_space (code c) then String.[] else String.◌∷◌ c rest

-- `s.strip()`
unfoldable pub strip : String → String
unfolding lstrip rstrip
strip s = rstrip (lstrip s)

-- `s.lower()` of the letters A to Z. The other letters are left, since no lower-case form of one is
-- among the texts that the code compares with.
abbrev pub lower_code : Char → Char
lower_code c = if leb 65 (code c) && leb (code c) 90 then chr (code c + 32) else c

unfoldable pub lower : String → String
lower String.[] = String.[]
lower (String.◌∷◌ c s) = String.◌∷◌ (lower_code c) (lower s)

unfoldable pub reverse_onto : String → String → String
reverse_onto String.[] t = t
reverse_onto (String.◌∷◌ c s) t = reverse_onto s (String.◌∷◌ c t)

-- `s.endswith(t)`
unfoldable pub endswith : String → String → Bool
unfolding reverse_onto
endswith s t = starts_with (reverse_onto s "") (reverse_onto t "")

-- The digits of a number, in front of `rest`; it has at most `n + 1`.
unfoldable pub digits_onto : ℕ → ℕ → String → String
digits_onto zero n rest = rest
digits_onto (suc fuel) n rest =
    let more = digits_onto fuel (n / 10) (String.◌∷◌ (chr (48 + n % 10)) rest) in
    if ltb n 10 then String.◌∷◌ (chr (48 + n)) rest else more

-- `str(n)`
unfoldable pub str_ℕ : ℕ → String
unfolding digits_onto
str_ℕ n = digits_onto (suc n) n ""

unfoldable pub str_ℤ : ℤ → String
unfolding str_ℕ
str_ℤ (pos n) = str_ℕ n
str_ℤ (negsuc n) = "-" <> str_ℕ (suc n)

abbrev tail_byte : ℕ → ℕ
tail_byte n = 128 + n % 64

abbrev utf8_of : ℕ → List ℕ → List ℕ
utf8_of c rest =
    if ltb c 128
    then c ∷ rest
    else if ltb c 2048
    then (192 + c / 64) ∷ tail_byte c ∷ rest
    else if ltb c 65536
    then (224 + c / 4096) ∷ tail_byte (c / 64) ∷ tail_byte c ∷ rest
    else (240 + c / 262144) ∷ tail_byte (c / 4096) ∷ tail_byte (c / 64) ∷ tail_byte c ∷ rest

-- `s.encode("utf-8")`
unfoldable pub utf8 : String → List ℕ
utf8 String.[] = []
utf8 (String.◌∷◌ c s) = utf8_of (code c) (utf8 s)

-- `str(s or "")`
abbrev pub or_blank : Option String → String
or_blank none = ""
or_blank (some s) = s

-- `normalized or None`
abbrev pub nonblank : String → Option String
nonblank s = if truthy s then some s else none

-- `", ".join(texts)` and its like
abbrev pub join_with : String → List String → String
join_with separator [] = ""
join_with separator (s ∷ []) = s
join_with separator (s ∷ t ∷ rest) = s <> separator <> join_with separator (t ∷ rest)

strip_test : Prim.Native.String.compare (strip "  Ab c\n ") "Ab c" ≡ Ordering.eq
unfolding strip
strip_test = refl

endswith_test : endswith (lower "CLIP.WebM") ".webm" ≡ true
unfolding endswith lower
endswith_test = refl

digits_test : Prim.Native.String.compare (str_ℤ (negsuc 1233)) "-1234" ≡ Ordering.eq
unfolding str_ℤ
digits_test = refl
