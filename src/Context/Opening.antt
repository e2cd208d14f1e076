-- ===== src/Context/Opening.antt =====
-- `_open_ctx_or_none` on its two branches.
use saga_forge.Base.{true, false, none, some, ◌≡◌, ◌⊎◌, Bool-cases}
use saga_forge.Json.{Dict, get}
use saga_forge.History.{Log, canonical_log}
use saga_forge.Context.State.{Folder, Env, read_ctx, is_shipped}
use saga_forge.Context.Store.{open_ctx, fill_required}

-- The folder's spec is completed or archived.
abbrev pub IsShipped : Folder → Type 0
IsShipped f = is_shipped (get "status" (read_ctx f)) ≡ true

abbrev pub IsLive : Folder → Type 0
IsLive f = is_shipped (get "status" (read_ctx f)) ≡ false

-- What an opened context starts from.
abbrev pub primed : Env → Folder → Dict × Log
primed env f = (fill_required env f (read_ctx f), canonical_log (read_ctx f))

pub open_ctx_shipped : (env : Env) (f : Folder) → IsShipped f → open_ctx env f ≡ none
unfolding open_ctx
open_ctx_shipped env f h = rw h

pub open_ctx_live : (env : Env) (f : Folder) → IsLive f → open_ctx env f ≡ some (primed env f)
unfolding open_ctx
open_ctx_live env f h = rw h

pub IsShipped-cases : (f : Folder) → IsShipped f ⊎ IsLive f
IsShipped-cases f = Bool-cases (is_shipped (get "status" (read_ctx f)))
