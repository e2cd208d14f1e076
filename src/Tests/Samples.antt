-- ===== src/Tests/Samples.antt =====
-- A feature folder, and what the calls find outside it.
use saga_forge.Base.{false, ◌++◌, List, [], ◌∷◌, none, some}
use saga_forge.Json.{str, arr, obj, empty, entry, of_list}
use saga_forge.History.{start, complete_entry}
use saga_forge.Context.{Folder, Env, absent, document}
use saga_forge.Lifecycle.{
  Command, update, advance, mark_complete, finish_task, close, Setting, Event, call,
}

abbrev pub env : Env
env = record {
  name = "007-checkout-flow";
  branch = some "main";
  checked_out = some "007-checkout-flow";
  now = λ _. "2026-01-01T00:00:00.000Z";
  behind_break = λ _. [];
}

abbrev pub fresh : Folder
fresh = record {
  context = absent;
  spec = some "# Feature Specification: Checkout flow\n";
  tasks = some "- [ ] T001 first\n- [ ] **T002** second\n```\n- [ ] T003 shown only\n```\n";
  events = none;
  open_end = false;
  ticks = 0;
}

abbrev pub setting : Setting
setting = record { nodes = []; coerce = λ s. str s; loads = λ _. none }

abbrev pub start_specify : Command
start_specify = update (record {
  step = "specify";
  status = some "specifying";
  by = "extension";
  kind = start;
  substep = none;
  at = none;
})

-- The way of a spec from its first write to the last task.
abbrev pub building : List Event
building =
    call env start_specify
    ∷ call env (advance "specify" "extension")
    ∷ call env (advance "plan" "extension")
    ∷ call env (advance "tasks" "extension")
    ∷ call env (close "T001" "ai" (some "built it") ("a.ts" ∷ []))
    ∷ call env (finish_task "T002" "ai" none [])
    ∷ []

abbrev pub life : List Event
life = building ++ call env (mark_complete "extension") ∷ []

-- A spec whose plan is being written.
abbrev pub planning : Folder
planning = record fresh {
  context = document (
      obj (
        entry "status" (str "planning") (
          entry "currentStep" (str "plan") (
            entry "history" (arr (of_list (complete_entry "specify" none none "ai" "t" ∷ [])))
              empty))));
}

abbrev pub shipped : Folder
shipped = record fresh {
  context = document (
      obj (
        entry "status" (str "completed") (
          entry "currentStep" (str "implement") (
            entry "history" (arr (of_list (complete_entry "implement" none none "ai" "t" ∷ [])))
              empty))));
}
