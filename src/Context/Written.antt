-- ===== src/Context/Written.antt =====
-- What a reader finds after a write.
use saga_forge.Base.{
  Bool, false, String, ◌≡◌, refl, arith, ap, ◌∙◌, ◌≤◌, elem, [], ◌∷◌, length, length-Extends,
  Extends,
}
use saga_forge.Json.{
  Json, null, bool, num, str, arr, obj, Dict, Items, get, to_list, of_list, to_list-of_list,
}
use saga_forge.Json.DictLaws.{get-put, get-put_self, get-pop}
use saga_forge.History.{Log, canonical_log, commit_log, splice, log_or}
use saga_forge.Context.State.{Stored, absent, broken, document, Folder, read_ctx, loaded}
use saga_forge.Context.Store.{atomic_write, guard_append_only, guarded, guard_with, history_on_disk}

-- The lifecycle log that a reader of the folder sees.
abbrev pub log_of : Folder → Log
log_of f = canonical_log (read_ctx f)

abbrev pub is_log_key : String → Bool
is_log_key k = elem k ("history" ∷ "historyQuarantined" ∷ "transitions" ∷ "stepHistory" ∷ [])

get-guarded :
    (disk : Json) (outgoing : Items) (ctx : Dict) (k : String)
    → is_log_key k ≡ false
    → get k (guarded disk outgoing ctx) ≡ get k ctx
get-guarded null outgoing ctx k h = refl
get-guarded (arr xs) outgoing ctx k h =
    ground (arith, get-put "history" k (arr (of_list (splice (to_list xs) (to_list outgoing)))) ctx)
get-guarded (bool b) outgoing ctx k h = ground (arith, get-put "historyQuarantined" k (bool b) ctx)
get-guarded (num b) outgoing ctx k h = ground (arith, get-put "historyQuarantined" k (num b) ctx)
get-guarded (str b) outgoing ctx k h = ground (arith, get-put "historyQuarantined" k (str b) ctx)
get-guarded (obj b) outgoing ctx k h = ground (arith, get-put "historyQuarantined" k (obj b) ctx)

get-guard_with :
    (disk out : Json) (ctx : Dict) (k : String)
    → is_log_key k ≡ false
    → get k (guard_with disk out ctx) ≡ get k ctx
get-guard_with disk (arr xs) ctx k h = get-guarded disk xs ctx k h
get-guard_with disk _ ctx k h = refl

-- A key that is not the log's reads as it was written.
pub get-atomic_write :
    (f : Folder) (ctx : Dict) (k : String)
    → is_log_key k ≡ false
    → get k (read_ctx (atomic_write f ctx)) ≡ get k ctx
unfolding atomic_write guard_append_only
get-atomic_write f ctx k h = get-guard_with (history_on_disk f.context) (get "history" ctx) ctx k h

-- `commit_log` changes the log's keys only, and the context then holds that log.
pub get-commit_log :
    (ctx : Dict) (log : Log) (k : String)
    → is_log_key k ≡ false
    → get k (commit_log ctx log) ≡ get k ctx
unfolding commit_log
get-commit_log ctx log k h =
    get-pop "stepHistory" k _ (ground arith)
    ∙ get-pop "transitions" k _ (ground arith)
    ∙ get-put "history" k _ ctx
    ∙ ground arith

pub get_history-commit_log :
    (ctx : Dict) (log : Log) → get "history" (commit_log ctx log) ≡ arr (of_list log)
unfolding commit_log
get_history-commit_log ctx log =
    get-pop "stepHistory" "history" _ refl
    ∙ get-pop "transitions" "history" _ refl
    ∙ get-put_self "history" _ ctx

splice_longer : (existing log : Log) → length existing ≤ length log → splice existing log ≡ log
unfolding splice
splice_longer existing log h = ground arith

-- A log that extends the one on disk is published as it is.
history-guarded :
    (disk : Json) (legacy : Json) (ctx : Dict) (log : Log)
    → Extends (log_or disk legacy) log
    → get "history" ctx ≡ arr (of_list log)
    → get "history" (guarded disk (of_list log) ctx) ≡ arr (of_list log)
history-guarded null legacy ctx log e h = h
history-guarded (arr xs) legacy ctx log e h =
    get-put_self "history" _ ctx
    ∙ ap (λ l. arr (of_list l))
        (rw to_list-of_list (splice_longer (to_list xs) log (length-Extends (to_list xs) log e)))
history-guarded (bool b) legacy ctx log e h =
    get-put "historyQuarantined" "history" (bool b) ctx ∙ h
history-guarded (num b) legacy ctx log e h = get-put "historyQuarantined" "history" (num b) ctx ∙ h
history-guarded (str b) legacy ctx log e h = get-put "historyQuarantined" "history" (str b) ctx ∙ h
history-guarded (obj b) legacy ctx log e h = get-put "historyQuarantined" "history" (obj b) ctx ∙ h

pub history_on_disk-loaded : (s : Stored) → history_on_disk s ≡ get "history" (loaded s)
history_on_disk-loaded (document (obj d)) = refl
history_on_disk-loaded absent = refl
history_on_disk-loaded broken = refl
history_on_disk-loaded (document null) = refl
history_on_disk-loaded (document (bool _)) = refl
history_on_disk-loaded (document (num _)) = refl
history_on_disk-loaded (document (str _)) = refl
history_on_disk-loaded (document (arr _)) = refl

-- A log that extends the one that a reader of the folder sees is the one that the next reader sees.
pub log_of-atomic_write :
    (f : Folder) (ctx : Dict) (log : Log)
    → Extends (log_of f) log
    → log_of (atomic_write f (commit_log ctx log)) ≡ log
unfolding atomic_write guard_append_only canonical_log
log_of-atomic_write f ctx log e =
    rw (get_history-commit_log ctx log, history_on_disk-loaded f.context)
      (rw
        (history-guarded (get "history" (read_ctx f)) (get "transitions" (read_ctx f))
          (commit_log ctx log) log e (get_history-commit_log ctx log))
        (to_list-of_list log))
