-- ===== src/History/Merge.antt =====
-- `_entry_key` and the splice of `_guard_append_only`.
use saga_forge.Base.{
  Bool, true, false, not, ◌&&◌, ◌++◌, ◌==◌, leb, length, any, keep, if◌then◌else◌, str_eq,
}
use saga_forge.Json.{
  Json, null, bool, num, str, arr, obj, Items, nil, cons, Dict, empty, entry, json_eq, as_num, get,
}
use saga_forge.History.Entries.{Log}

-- `repr(v) == repr(w)`: the same document, the order of keys included.
unfoldable mutual
  pub same_repr : Json → Json → Bool
  same_repr null null = true
  same_repr (bool b) (bool c) = as_num b == as_num c
  same_repr (num n) (num m) = n == m
  same_repr (str s) (str t) = str_eq s t
  same_repr (arr xs) (arr ys) = same_items xs ys
  same_repr (obj d) (obj e) = same_dict d e
  same_repr _ _ = false

  pub same_items : Items → Items → Bool
  same_items nil nil = true
  same_items (cons x xs) (cons y ys) = same_repr x y && same_items xs ys
  same_items _ _ = false

  pub same_dict : Dict → Dict → Bool
  same_dict empty empty = true
  same_dict (entry k v d) (entry j w e) = str_eq k j && same_repr v w && same_dict d e
  same_dict _ _ = false

-- `_entry_key(a) == _entry_key(b)`. Entries that are no objects are told apart by their `repr`.
unfoldable pub same_key : Json → Json → Bool
unfolding same_repr
same_key (obj d) (obj e) =
    json_eq (get "step" d) (get "step" e)
    && json_eq (get "substep" d) (get "substep" e)
    && json_eq (get "task" d) (get "task" e)
    && json_eq (get "kind" d) (get "kind" e)
    && json_eq (get "at" d) (get "at" e)
same_key a b = same_repr a b

-- The entries that this write contributes: those whose key is not on disk.
abbrev pub added : Log → Log → Log
added existing outgoing = keep (λ e. not (any (same_key e) existing)) outgoing

-- The log that is published over `existing`: a shorter one is spliced behind it.
unfoldable pub splice : Log → Log → Log
splice existing outgoing =
    if leb (length existing) (length outgoing)
    then outgoing
    else existing ++ added existing outgoing
