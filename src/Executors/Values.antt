-- ===== src/Executors/Values.antt =====
-- app/workers/executors.py: the helpers of BaseProviderExecutor and RuntimeBackedExecutor on values.
use ai_video_replication.Common.{
  ℕ, Bool, true, false, ◌||◌, if◌then◌else◌, Option, none, some, List, [], ◌∷◌, String, ◌==◌, ℤ,
  pos, leb_ℤ, leb, nat_eq, ltb, pos_part,
}
use Prim.Native.Nat.{◌+◌, ◌-◌, ◌/◌, ◌%◌}
use ai_video_replication.Common.Json.{
  Json, null, boolean, int, arr, obj, Items, nil, cons, Dict, empty, entry,
}
use ai_video_replication.Common.Strings.{◌<>◌, strip, lower, nonblank, join_with}
use ai_video_replication.Common.Values.{str_json, int_of}

abbrev pub present_texts : List (Option String) → List String
present_texts [] = []
present_texts (none ∷ rest) = present_texts rest
present_texts (some s ∷ rest) = s ∷ present_texts rest

-- `separator.join(texts) or None`, of the texts that there are
abbrev pub joined : String → List String → Option String
joined separator [] = none
joined separator (s ∷ rest) = nonblank (join_with separator (s ∷ rest))

abbrev pub not_null : Option Json → Option Json
not_null (some null) = none
not_null o = o

-- `_coerce_positive_int` and `_coerce_non_negative_int`, with the least number allowed
abbrev pub at_least : ℤ → Option ℤ → Option ℤ → Option ℤ
at_least least default none = default
at_least least default (some n) = if leb_ℤ least n then some n else default

unfoldable pub coerce_int : ℤ → Option Json → Option ℤ → Option ℤ
unfolding int_of
coerce_int least value default = elim (not_null value) [
  | none ↦ default
  | some v ↦ at_least least default (int_of v)
]

abbrev pub coerce_positive_int : Option Json → Option ℤ → Option ℤ
coerce_positive_int = coerce_int (pos 1)

abbrev pub coerce_non_negative_int : Option Json → Option ℤ
coerce_non_negative_int value = coerce_int (pos 0) value none

abbrev pub truth_word : String → Option Bool
truth_word s =
    if s == "1" || (s == "true" || (s == "yes" || (s == "y" || s == "on")))
    then some true
    else if s == "0" || (s == "false" || (s == "no" || (s == "n" || s == "off")))
    then some false
    else none

-- |a - b|
abbrev pub distance : ℕ → ℕ → ℕ
distance a b = if leb a b then b - a else a - b

-- The `key` of `min`: the nearer first, and of two as near the larger.
abbrev pub nearer : ℕ → ℕ → ℕ → Bool
nearer d a b =
    if ltb (distance a d) (distance b d)
    then true
    else if nat_eq (distance a d) (distance b d)
    then leb b a
    else false

abbrev pub nearest : ℕ → ℕ → List ℕ → ℕ
nearest d best [] = best
nearest d best (s ∷ rest) = nearest d (if nearer d best s then best else s) rest

-- `min(_SUPPORTED_VIDEO_DURATION_SECONDS, key=...)`
abbrev pub supported_duration : ℕ → ℕ
supported_duration d = nearest d 4 (6 ∷ 8 ∷ [])

unfoldable pub normalize_video_duration_seconds : Option Json → Option ℕ
unfolding coerce_int
normalize_video_duration_seconds value = elim (coerce_positive_int value none) [
  | none ↦ none
  | some d ↦ some (supported_duration (pos_part d))
]

-- `round(n / 1000)`: half to even
abbrev pub rounded_thousands : ℕ → ℕ
rounded_thousands n =
    if ltb (n % 1000) 500
    then n / 1000
    else if ltb 500 (n % 1000)
    then n / 1000 + 1
    else n / 1000 + n / 1000 % 2

unfoldable pub duration_ms_to_seconds : Option Json → Option ℕ
unfolding coerce_int normalize_video_duration_seconds
duration_ms_to_seconds value = elim (coerce_positive_int value none) [
  | none ↦ none
  | some ms ↦ normalize_video_duration_seconds (some (int (pos (rounded_thousands (pos_part ms)))))
]

module _ (repr : Json → String) where
  unfoldable pub normalize_optional_text : Option Json → Option String
  normalize_optional_text value = elim (not_null value) [
    | none ↦ none
    | some v ↦ nonblank (strip (str_json repr v))
  ]

  unfoldable pub coerce_bool : Option Json → Option Bool
  coerce_bool value = elim (not_null value) [
    | none ↦ none
    | some (boolean b) ↦ some b
    | some v ↦ truth_word (lower (strip (str_json repr v)))
  ]

  -- `_join_text_blocks` of texts, each stripped once more
  abbrev pub stripped_texts : List (Option String) → List (Option String)
  stripped_texts [] = []
  stripped_texts (none ∷ rest) = none ∷ stripped_texts rest
  stripped_texts (some s ∷ rest) = nonblank (strip s) ∷ stripped_texts rest

  unfoldable pub join_text_blocks : List (Option String) → Option String
  join_text_blocks parts = joined "\n\n" (present_texts (stripped_texts parts))

  unfoldable pub mapping_items : Dict → List String
  mapping_items empty = []
  mapping_items (entry k v d) = elim (normalize_optional_text (some v)) [
    | none ↦ mapping_items d
    | some t ↦ (k <> "=" <> t) ∷ mapping_items d
  ]

  unfoldable pub list_items : Items → List String
  list_items nil = []
  list_items (cons x xs) = elim (normalize_optional_text (some x)) [
    | none ↦ list_items xs
    | some t ↦ t ∷ list_items xs
  ]

  unfoldable pub format_mapping : Option Json → Option String
  format_mapping value = elim (not_null value) [
    | none ↦ none
    | some (obj d) ↦ joined ", " (mapping_items d)
    | some (arr xs) ↦ joined ", " (list_items xs)
    | some v ↦ normalize_optional_text (some v)
  ]
