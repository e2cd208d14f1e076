-- ===== src/Tests/HistoryTests.antt =====
-- The theorems on the log, applied to logs with one and two finishes.
use saga_forge.Base.{[], ◌∷◌, some, none, true, refl, ◌≡◌, ◌≤◌, ◌⊎◌, inl, Extends, length, ◌||◌}
use saga_forge.History.{Log, append_complete, complete_entry, has_complete, splice}
use saga_forge.History.Completion.{has_complete-append_complete}
use saga_forge.History.AppendOnly.{AllKept, splice_keeps}
use saga_forge.Context.{atomic_write, read_ctx}
use saga_forge.Context.Written.{log_of, log_of-atomic_write}
use saga_forge.History.{commit_log, canonical_log}
use saga_forge.Tests.Samples.{shipped}

abbrev one : Log
one = complete_entry "plan" none none "ai" "t" ∷ []

has_complete-append_complete_example :
    has_complete
      (append_complete one "implement" none (some "T001") "ai" "u")
      "implement"
      (some "T001")
    ≡ (has_complete one "implement" (some "T001") || true)
has_complete-append_complete_example =
    has_complete-append_complete one "implement" none (some "T001") "ai" "u" "implement"
      (some "T001") (inl refl)

abbrev two : Log
two = complete_entry "plan" none none "ai" "t" ∷ complete_entry "tasks" none none "ai" "u" ∷ []

abbrev stale : Log
stale = complete_entry "specify" none none "ai" "s" ∷ []

-- A stale write with one new finish, over a log on disk that has grown meanwhile.
splice_keeps_example :
    (2 ≤ length (splice two stale))
    × ((splice two stale ≡ stale) ⊎ Extends two (splice two stale))
    × AllKept two (splice two stale) stale
splice_keeps_example = splice_keeps two stale

log_of-atomic_write_example :
    log_of (
      atomic_write shipped
        (commit_log (read_ctx shipped) (complete_entry "implement" none none "ai" "t" ∷ one)))
    ≡ complete_entry "implement" none none "ai" "t" ∷ one
unfolding canonical_log
log_of-atomic_write_example =
    log_of-atomic_write shipped (read_ctx shipped)
      (complete_entry "implement" none none "ai" "t" ∷ one) (one, refl)
