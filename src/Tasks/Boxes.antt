-- ===== src/Tasks/Boxes.antt =====
-- `_mark_tasks_done`: the checkboxes of the tasks that are journaled.
use saga_forge.Base.{
  Bool, false, List, [], ◌∷◌, Char, String, Option, none, some, if◌then◌else◌, elem, map, any,
}
use saga_forge.Text.{join, splitlines_keep, after_prefix}
use saga_forge.Tasks.Marks.{pending_task}

abbrev or_walk : Option String → Char → String → String
or_walk (some rest) c more = String.◌∷◌ "[" (String.◌∷◌ "x" (String.◌∷◌ "]" rest))
or_walk none c more = String.◌∷◌ c more

-- `line.replace("[ ]", "[x]", 1)`
unfoldable pub check_box : String → String
unfolding after_prefix
check_box String.[] = String.[]
check_box (String.◌∷◌ c s) = or_walk (after_prefix "[ ]" (String.◌∷◌ c s)) c (check_box s)

abbrev pub is_due : List String → Option String → Bool
is_due ids none = false
is_due ids (some id) = elem id ids

-- The line flips: it holds a pending task that is named.
abbrev pub is_flipped : List String → String → Bool
is_flipped ids line = is_due ids (pending_task line)

abbrev pub flip_line : List String → String → String
flip_line ids line = if is_flipped ids line then check_box line else line

abbrev flip_text : List String → String → String
flip_text ids content =
    let ls = splitlines_keep content in
    if any (is_flipped ids) ls then join (map (flip_line ids) ls) else content

unfoldable pub mark_tasks_done : Option String → List String → Option String
unfolding check_box pending_task
mark_tasks_done none ids = none
mark_tasks_done (some content) [] = some content
mark_tasks_done (some content) (id ∷ ids) = some (flip_text (id ∷ ids) content)
