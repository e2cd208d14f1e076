-- ===== src/Json/Methods.antt =====
-- The methods of `dict`: `get`, item assignment, `pop`, `setdefault`.
use saga_forge.Base.{List, [], String, str_eq, if◌then◌else◌, Option, none, some}
use saga_forge.Json.Data.{Json, null, arr, obj, Dict, empty, entry, lookup, to_list}

abbrev pub or_null : Option Json → Json
or_null none = null
or_null (some v) = v

-- `d.get(k)`: `None` for a key that is not there.
abbrev pub get : String → Dict → Json
get k d = or_null (lookup k d)

-- `d[k] = v`: an old key keeps its place, a new one goes to the end.
unfoldable pub put : String → Json → Dict → Dict
put k v empty = entry k v empty
put k v (entry j w d) = if str_eq j k then entry j v d else entry j w (put k v d)

-- `d.pop(k, None)`
unfoldable pub pop : String → Dict → Dict
pop k empty = empty
pop k (entry j v d) = let rest = pop k d in if str_eq j k then rest else entry j v rest

abbrev default_onto : Option Json → String → Json → Dict → Dict
default_onto none k v d = put k v d
default_onto (some _) k v d = d

-- `d.setdefault(k, v)`
unfoldable pub set_default : String → Json → Dict → Dict
set_default k v d = default_onto (lookup k d) k v d

-- `x if isinstance(x, dict) else {}`
abbrev pub dict_or_empty : Json → Dict
dict_or_empty (obj d) = d
dict_or_empty _ = empty

-- `list(x) if isinstance(x, list) else []`
abbrev pub list_or_empty : Json → List Json
list_or_empty (arr vs) = to_list vs
list_or_empty _ = []
