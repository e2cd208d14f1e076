-- ===== src/Json/Data.antt =====
-- The values, and Python's `==` and truth value on them.
use saga_forge.Base.{
  ℕ, suc, Bool, true, false, not, ◌&&◌, List, [], ◌∷◌, String, str_eq, ◌==◌, if◌then◌else◌, Option,
  none, some, ◌≡◌, refl, ap,
}

mutual
  pub data Json : Type 0 where
    null : Json
    bool : Bool → Json
    num : ℕ → Json
    str : String → Json
    arr : Items → Json
    obj : Dict → Json

  pub data Items : Type 0 where
    nil : Items
    cons : Json → Items → Items

  -- A `dict` with its keys in order of insertion.
  pub data Dict : Type 0 where
    empty : Dict
    entry : String → Json → Dict → Dict

-- The elements of an array as a list, and back.
abbrev pub to_list : Items → List Json
to_list nil = []
to_list (cons v vs) = v ∷ to_list vs

abbrev pub of_list : List Json → Items
of_list [] = nil
of_list (v ∷ vs) = cons v (of_list vs)

pub to_list-of_list : (vs : List Json) → to_list (of_list vs) ≡ vs
to_list-of_list [] = refl
to_list-of_list (v ∷ vs) = ap (◌∷◌ v) (to_list-of_list vs)

pub of_list-to_list : (vs : Items) → of_list (to_list vs) ≡ vs
of_list-to_list nil = refl
of_list-to_list (cons v vs) = ap (cons v) (of_list-to_list vs)

abbrev pub as_num : Bool → ℕ
as_num true = 1
as_num false = 0

-- `d[k]` as an option, and `len(d)`.
abbrev pub lookup : String → Dict → Option Json
lookup k empty = none
lookup k (entry j v d) = if str_eq j k then some v else lookup k d

abbrev pub size : Dict → ℕ
size empty = 0
size (entry k v d) = suc (size d)

abbrev when_some : Option Json → (Json → Bool) → Bool
when_some none test = false
when_some (some v) test = test v

-- Python's `==` on two documents: the order of the keys does not matter, and `True == 1`.
unfoldable mutual
  pub json_eq : Json → Json → Bool
  json_eq null null = true
  json_eq (bool b) (bool c) = as_num b == as_num c
  json_eq (bool b) (num n) = as_num b == n
  json_eq (num n) (bool b) = n == as_num b
  json_eq (num n) (num m) = n == m
  json_eq (str s) (str t) = str_eq s t
  json_eq (arr xs) (arr ys) = items_eq xs ys
  json_eq (obj d) (obj e) = size d == size e && dict_le d e
  json_eq _ _ = false

  pub items_eq : Items → Items → Bool
  items_eq nil nil = true
  items_eq (cons x xs) (cons y ys) = json_eq x y && items_eq xs ys
  items_eq _ _ = false

  -- Each entry of the first dictionary is in the second.
  pub dict_le : Dict → Dict → Bool
  dict_le empty e = true
  dict_le (entry k v d) e = when_some (lookup k e) (json_eq v) && dict_le d e

abbrev pub is_null : Json → Bool
is_null null = true
is_null _ = false

-- `v == s` for a text `s`.
abbrev pub is_str : Json → String → Bool
is_str (str t) s = str_eq t s
is_str _ s = false

-- `v == s` for an `s` that is a text or `None`.
abbrev pub is_opt : Json → Option String → Bool
is_opt v none = is_null v
is_opt v (some s) = is_str v s

-- `v in {…}` for a set of texts.
abbrev pub is_one_of : Json → List String → Bool
is_one_of v [] = false
is_one_of v (s ∷ ss) = if is_str v s then true else is_one_of v ss

-- `bool(v)`
abbrev pub truthy : Json → Bool
truthy null = false
truthy (bool b) = b
truthy (num n) = not (n == 0)
truthy (str s) = not (str_eq s "")
truthy (arr nil) = false
truthy (arr (cons v vs)) = true
truthy (obj empty) = false
truthy (obj (entry k v d)) = true

abbrev pub of_opt : Option String → Json
of_opt none = null
of_opt (some s) = str s
