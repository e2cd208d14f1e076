-- ===== src/Config/Values.antt =====
-- The values that the reader of `companion_config.py` builds, and the outcome of a parse.
use saga_forge.Base.{ℕ, Bool, true, false, not, List, [], ◌∷◌, String, str_eq, ◌==◌, if◌then◌else◌}

mutual
  pub data Value : Type 0 where
    null : Value
    bool : Bool → Value
    int : Bool → ℕ → Value
    str : String → Value
    seq : Values → Value
    map : Fields → Value

  pub data Values : Type 0 where
    nil : Values
    cons : Value → Values → Values

  -- A `dict`, its keys in the order of insertion
  pub data Fields : Type 0 where
    empty : Fields
    field : String → Value → Fields → Fields

-- A value; the `ValueError` of a text outside of the subset; or the end of the model's fuel.
pub data Parsed {ℓ} (A : Type ℓ) : Type ℓ where
  ok : A → Parsed A
  malformed : Parsed A
  out_of_fuel : Parsed A

infixl 5 ◌>>=◌
abbrev pub ◌>>=◌ {ℓ κ} : {A : Type ℓ} {B : Type κ} → Parsed A → (A → Parsed B) → Parsed B
ok a >>= f = f a
malformed >>= f = malformed
out_of_fuel >>= f = out_of_fuel

abbrev pub to_list : Values → List Value
to_list nil = []
to_list (cons v vs) = v ∷ to_list vs

abbrev pub of_list : List Value → Values
of_list [] = nil
of_list (v ∷ vs) = cons v (of_list vs)

-- `d[k] = v`
unfoldable pub put : String → Value → Fields → Fields
put k v empty = field k v empty
put k v (field j w d) = if str_eq j k then field j v d else field j w (put k v d)

-- `d.get(k)`, with `None` for a key that is not there
unfoldable pub get : String → Fields → Value
get k empty = null
get k (field j v d) = if str_eq j k then v else get k d

-- `k in d`
unfoldable pub has_key : String → Fields → Bool
has_key k empty = false
has_key k (field j v d) = if str_eq j k then true else has_key k d

-- `bool(v)`
abbrev pub truthy : Value → Bool
truthy null = false
truthy (bool b) = b
truthy (int s n) = not (n == 0)
truthy (str s) = not (str_eq s "")
truthy (seq nil) = false
truthy (seq (cons v vs)) = true
truthy (map empty) = false
truthy (map (field k v d)) = true

-- `v or {}` and `v or []`, where the value is of that type
abbrev pub fields_of : Value → Fields
fields_of (map d) = d
fields_of _ = empty
