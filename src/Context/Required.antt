-- ===== src/Context/Required.antt =====
-- `fill_required`, read key by key.
use saga_forge.Base.{
  Bool, true, false, not, String, Option, str_eq, ◌≡◌, arith, Bool-cases, inl, inr, ◌∙◌, elem, [],
  ◌∷◌,
}
use saga_forge.Json.{str, Dict, lookup, get}
use saga_forge.Json.DictLaws.{lookup-put, lookup-set_default}
use saga_forge.Context.State.{Folder, Env}
use saga_forge.Context.Store.{fill_required, refresh_name, set_name, is_undecided}
use saga_forge.Context.Name.{spec_name}

abbrev pub is_free : String → Bool
is_free k = not (elem k ("workflow" ∷ "specName" ∷ "branch" ∷ []))

lookup-set_name :
    (k s : String) (d : Dict) → str_eq "specName" k ≡ false → lookup k (set_name s d) ≡ lookup k d
lookup-set_name k s d h = ground (arith, lookup-put "specName" k (str s) d)

lookup-refresh_name :
    (k : String) (env : Env) (spec : Option String) (d : Dict)
    → str_eq "specName" k ≡ false
    → lookup k (refresh_name env spec d) ≡ lookup k d
lookup-refresh_name k env spec d h = elim (Bool-cases (is_undecided env (get "specName" d))) [
  | inl open_name ↦ rw open_name (lookup-set_name k (spec_name env spec) d h)
  | inr decided ↦ rw decided
]

-- Every other key reads as before.
pub lookup-fill_required :
    (env : Env) (f : Folder) (ctx : Dict) (k : String)
    → is_free k ≡ true
    → lookup k (fill_required env f ctx) ≡ lookup k ctx
unfolding fill_required
lookup-fill_required env f ctx k h =
    lookup-set_default "branch" k _ _ (ground arith)
    ∙ lookup-refresh_name k env f.spec _ (ground arith)
    ∙ lookup-set_default "workflow" k _ ctx (ground arith)

pub get-fill_required :
    (env : Env) (f : Folder) (ctx : Dict) (k : String)
    → is_free k ≡ true
    → get k (fill_required env f ctx) ≡ get k ctx
get-fill_required env f ctx k h = rw (lookup-fill_required env f ctx k h)
