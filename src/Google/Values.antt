-- ===== src/Google/Values.antt =====
-- app/providers/google/client.py: reading a JSON value, and `str()` of one.
use ai_video_replication.Common.{if◌then◌else◌, Option, none, some, String, truthy}
use ai_video_replication.Common.Json.{Json, null, boolean, int, decimal, str, moment, arr, obj, get}
use ai_video_replication.Common.Strings.{strip, lower}
use ai_video_replication.Common.Values.{truthy_json, str_json}

-- `None` and a value of JSON's null are the same.
abbrev pub known : Option Json → Option Json
known none = none
known (some null) = none
known (some (boolean b)) = some (boolean b)
known (some (int n)) = some (int n)
known (some (decimal t)) = some (decimal t)
known (some (str s)) = some (str s)
known (some (moment t)) = some (moment t)
known (some (arr xs)) = some (arr xs)
known (some (obj d)) = some (obj d)

-- `_read_value(payload, key)`: no value but a dict has one of the keys as an attribute.
unfoldable pub read_value : Json → String → Option Json
unfolding get
read_value (obj d) key = get key d
read_value null key = none
read_value (boolean b) key = none
read_value (int n) key = none
read_value (decimal t) key = none
read_value (str s) key = none
read_value (moment t) key = none
read_value (arr xs) key = none

-- the same with `default`
abbrev pub read_or : Json → String → Json → Json
read_or payload key default = elim (read_value payload key) [ none ↦ default | some v ↦ v ]

-- A text that is not blank.
abbrev pub text_of : Option Json → Option String
text_of (some (str s)) = if truthy (strip s) then some (strip s) else none
text_of _ = none

-- `str(value or "").strip().lower()`
unfoldable pub keyword : (Json → String) → Option Json → String
unfolding str_json strip lower
keyword repr none = ""
keyword repr (some v) = if truthy_json v then lower (strip (str_json repr v)) else ""
