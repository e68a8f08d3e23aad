-- ===== src/Common/Json.antt =====
-- The JSON values that the JSONB columns and the request bodies hold. The code under
-- app/services and app/repositories stores and copies them and tests an object for emptiness.
use Prim.Native.String.{String}
use mathlib.Core.Bool.{Bool}
use mathlib.Core.Option.{Option, none, some}
use ai_video_replication.Common.Ints.{ℤ}
use ai_video_replication.Common.Tests.{◌==◌, if◌then◌else◌}

mutual
  pub data Json : Type 0 where
    null : Json
    boolean : Bool → Json
    int : ℤ → Json
    -- a number with a fraction, by its text
    decimal : String → Json
    str : String → Json
    -- the text that `isoformat()` gives of a time
    moment : ℤ → Json
    arr : Items → Json
    obj : Dict → Json

  pub data Items : Type 0 where
    nil : Items
    cons : Json → Items → Items

  -- a `dict[str, Any]`, in insertion order
  pub data Dict : Type 0 where
    empty : Dict
    entry : String → Json → Dict → Dict

-- `a or b` on two dicts
abbrev pub or_dict : Dict → Dict → Dict
or_dict empty b = b
or_dict (entry k v d) b = entry k v d

abbrev pub or_dict? : Option Dict → Dict → Dict
or_dict? none b = b
or_dict? (some d) b = or_dict d b

-- `d.get(key)`
unfoldable pub get : String → Dict → Option Json
get key empty = none
get key (entry k v d) = if k == key then some v else get key d

-- `d[key] = value`: a known key keeps its place.
unfoldable pub put : String → Json → Dict → Dict
put key value empty = entry key value empty
put key value (entry k v d) = if k == key then entry k value d else entry k v (put key value d)

-- `{**a, **b}`
unfoldable pub merge : Dict → Dict → Dict
unfolding put
merge a empty = a
merge a (entry k v b) = merge (put k v a) b

-- `dict(d or {})`
abbrev pub or_empty : Option Dict → Dict
or_empty none = empty
or_empty (some d) = d

-- `value if isinstance(value, dict) else {}`
abbrev pub coerce_dict : Option Json → Dict
coerce_dict (some (obj d)) = d
coerce_dict _ = empty

-- `value if isinstance(value, list) else []`
abbrev pub coerce_list : Option Json → Items
coerce_list (some (arr xs)) = xs
coerce_list _ = nil
