-- ===== src/Lib.antt =====
-- The Python tools of the repository that keep a feature folder's state: the scripts under
-- .specify/extensions/companion/scripts. A feature folder holds spec.md, tasks.md, the context
-- .spec-context.json and the events file .spec-context.events.jsonl. Each call of write-context.py
-- reads the context, changes it and writes it back; several processes append to the events file and
-- a later call folds it into the context.
--
-- The parts and their files, from the bottom up:
--
-- - Base: booleans, comparisons of the native numbers and texts, lists and options.
-- - Text: what the scripts use of Python's `str` (strip, splitlines, lower-cased prefixes), and the
--   pieces from which the regular expressions are put together. Characters are ASCII where case or
--   a class of characters matters.
-- - Json: the documents of `json.loads`, with `dict.get`, item assignment, `pop` and `setdefault`.
-- - History (spec_context.py): the lifecycle log: `canonical_log`, `commit_log`, `append_complete`,
--   `_has_complete`, `_has_step_start`, `_entry_kind`, and the merge of `_guard_append_only`.
-- - Context (spec_context.py): `read_ctx`, `atomic_write`, `fill_required`, `_open_ctx_or_none`,
--   `_is_more_advanced`, `_spec_name`. `Folder` is the feature folder, `Env` what a run finds
--   outside it: the folder's name, git's branches and the clock. `Run` is how a call ends.
-- - Tasks (task_sync.py): `parse_task_markers`, `_mark_tasks_done`, `journal_task_finish`,
--   `append_task_log`, `materialize_log`, `close_task`, `sync_tasks`.
-- - Steps (write-context.py): `update_context`, `journal_finish`, `journal_advance`,
--   `mark_spec_complete`.
-- - Capture (capture.py): `set_fields`, `append_capture_entries` and the other additive writers.
-- - Lifecycle: the dispatch of `_main` as one type of commands, and sequences of calls and edits.
--   Lifecycle.Machine forgets the log, the summaries and the files, and is the abstract machine on
--   the status and the current step that the calls refine.
-- - Deltas (spec_deltas.py, living_spec_fold.py, and the fences of living_validate.py):
--   `parse_spec_deltas` and `apply_deltas`.
-- - Lock (spec_context.py): `_acquire_lock`, `_reclaim_lock` and `_release_lock` as interleavings of
--   processes on one lock file.
-- - Derive (derive-from-files.py, status-context.py): `_infer` and `derive`, and the report
--   `resolve` on where a feature stands (Position, Status).
-- - Config (companion_config.py): the reader of the YAML subset (Flow, LineRules, Reader), the
--   normalized registry, its writer (Splice), and the hooks and phases of a recipe (Hooks).
-- - Resolver (resolve-spec-paths.py): globs, requirement slices, `match_changed`, the scan for specs,
--   `discover_all`, `requirements_for_changed` and the `show_*` queries.
-- - Validate (living_validate.py): the shape check of a living spec as the fold takes it (Shape), the
--   blocks of a feature spec (Blocks) and their check against the living specs (FeatureDeltas).
-- - Fold (living_spec_fold.py): `_resolve_fold_targets` (Targets), the loop over the targets and
--   `fold_living_spec` (Writing), which calls the resolver, the check and `apply_deltas`.
-- - Tests: the theorems at concrete inputs.
--
-- How state is modelled. A call is a function from a folder to a `Run`, which carries the folder
-- that it leaves: `wrote` where Python returns the target, `refused` where it returns `None`,
-- `raised` where it raises. The clock is a function of the number of calls of `_now_iso`. A document
-- is an association list in the order of insertion, as Python's `dict` is.
--
-- Fuel. The walk along a chain of renames has one step more than there are keys, and so has
-- `resolve_rename`, as in the code: a chain that is longer meets one of its own headings. The loop
-- of `requirement_slices`, which jumps, has the number of lines as fuel; the search of
-- `_discovered_name` has one try more than there are names taken. The reader of the YAML subset has
-- three steps for a line and three, and one more than the characters of a flow collection; the
-- search for `[inferred]` in a heading has its length. All other loops are structural on a list or a
-- text.
--
-- Interleavings. One process runs at a time: a call reads, changes and writes without another call
-- in between, as the write lock has it. What others do between two calls is an edit of tasks.md or
-- spec.md. Lines of the events file are appended by calls.
--
-- Parameters. `str` of a list or a dict is a parameter of the registry and of the hooks. `str.lower`
-- in the queries of the resolver is a parameter, since it goes by the tables of Unicode, and so are
-- the class `\w` of the shape check and the capital of a title. `json.loads` and `_coerce_value` are
-- functions of the setting, and any functions will do. The clock, git's branches and the folder's
-- name are fields of `Env`, and so is `behind_break`, which gives what `json.loads` makes of the
-- pieces behind the first where `str.splitlines` splits the line of a finish.
--
-- Restrictions. A text for which `str.isdigit` holds and `int` fails (superscripts) is read as a
-- text. Warnings are counted or left out. JSON numbers are natural numbers, since the scripts only
-- carry numbers along. A status or a current step that is a list or an object, where a look-up in a
-- set or a dict of names raises TypeError, is left out: the model reads it as one outside of every
-- vocabulary, in the writers and in status-context.py. A value under `from` that is truthy and no
-- object counts as `{}`, where Python raises. The lines of the events file are those that
-- `str.splitlines` gives, with the types that `append_task_log` writes, and `open_end` says whether
-- the last has no line break behind it. A skip whose recorded name is no text is passed over. The
-- file of tasks is the folder's own. Writes to the disk succeed.
--
-- Not modelled. The resolution of the feature folder; the clocks and the refresh thread of the write
-- lock, whose judgements may come at any time here; argument parsing, printed output and the trace
-- of outcomes of write-context.py, and the plan check behind a closed plan; the capture flags that
-- run commands or read living specs; the part of `check_living_spec` that looks at the tree of
-- files, which the fold does not take; the lines that the fold prints, with its gap of
-- accountability, and the writes of its outcome to the context, which Capture has; the scripts that
-- report (the doctor, drift, coverage, plan blocks). The saga framework itself is written in Java
-- and is not part of this library.
mod Base
pub mod Text
pub mod Json
pub mod History
pub mod Context
pub mod Tasks
pub mod Steps
pub mod Capture
pub mod Lifecycle
pub mod Deltas
pub mod Lock
pub mod Derive
pub mod Fold
pub mod Config
pub mod Resolver
pub mod Validate
mod Tests
