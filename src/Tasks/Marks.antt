-- ===== src/Tasks/Marks.antt =====
-- `prose_lines` and `parse_task_markers`. `COMPLETED_TASK_RE` and `PENDING_TASK_RE` differ in the
-- box only, and neither needs to go back over what it has read.
use saga_forge.Base.{
  ℕ, zero, suc, ◌+◌, ◌-◌, ◌/◌, Bool, true, false, ◌&&◌, ◌||◌, List, [], ◌∷◌, Char, String, Option,
  none, some, if◌then◌else◌, leb, ◌==◌,
}
use saga_forge.Text.{is, is_space, is_digit, skip_spaces, after_prefix, splitlines}

-- The number of characters `c` at the head of a text.
unfoldable pub run_length : ℕ → String → ℕ
run_length c String.[] = 0
run_length c (String.◌∷◌ d s) = let more = suc (run_length c s) in if is d c then more else 0

-- An open fence: its character and its length.
pub record Fence : Type 0 where
  pub mark : ℕ
  pub size : ℕ

-- `_FENCE_RE`, ^\s*(`{3,}|~{3,})
abbrev fence_at : String → Option Fence
fence_at s =
    if leb 3 (run_length b'`' s)
    then some (record { mark = b'`'; size = run_length b'`' s })
    else if leb 3 (run_length b'~' s)
    then some (record { mark = b'~'; size = run_length b'~' s })
    else none

unfoldable pub fence_of : String → Option Fence
unfolding run_length skip_spaces
fence_of line = fence_at (skip_spaces line)

-- The fence that is open behind a line.
abbrev pub next_fence : Option Fence → Option Fence → Option Fence
next_fence none found = found
next_fence (some open_fence) none = some open_fence
next_fence (some open_fence) (some found) =
    if found.mark == open_fence.mark && leb open_fence.size found.size
    then none
    else some open_fence

drop_chars : ℕ → String → String
drop_chars zero s = s
drop_chars (suc n) String.[] = String.[]
drop_chars (suc n) (String.◌∷◌ c s) = drop_chars n s

plain_length : String → ℕ
plain_length String.[] = 0
plain_length (String.◌∷◌ c s) = let more = suc (plain_length s) in if is c b'`' then 0 else more

-- The length of the match of `_INLINE_CODE_RE`, (`+)[^`]*?\1, at the head of a text that begins
-- with a run of `run` backquotes. Where no run closes this one, the pattern gives backquotes back,
-- and the two halves of the run close one another.
abbrev span_within : ℕ → String → ℕ
span_within run rest =
    if leb run (run_length b'`' (drop_chars (plain_length rest) rest))
    then run + plain_length rest + run
    else run / 2 + run / 2

span_length : String → ℕ
unfolding run_length drop_chars plain_length
span_length s = span_within (run_length b'`' s) (drop_chars (run_length b'`' s) s)

abbrev put_if : Bool → Char → String → String
put_if true c s = String.◌∷◌ c s
put_if false c s = s

abbrev match_length : Char → String → ℕ
match_length c s = if is c b'`' then span_length (String.◌∷◌ c s) else 0

-- `_INLINE_CODE_RE.sub("", raw)`; the number is what is left of a match.
blank_code_from : ℕ → String → String
unfolding span_length
blank_code_from n String.[] = String.[]
blank_code_from (suc n) (String.◌∷◌ c s) = blank_code_from n s
blank_code_from zero (String.◌∷◌ c s) =
    put_if (match_length c s == 0) c (blank_code_from (match_length c s - 1) s)

unfoldable pub blank_code : String → String
unfolding blank_code_from
blank_code = blank_code_from 0

abbrev pub emit_line : Option Fence → Option Fence → String → List String → List String
emit_line none none line rest = blank_code line ∷ rest
emit_line _ _ line rest = rest

-- The loop of `prose_lines`, by the fence that is open.
unfoldable pub prose_from : Option Fence → List String → List String
unfolding fence_of blank_code
prose_from open_fence [] = []
prose_from open_fence (line ∷ ls) =
    emit_line open_fence (fence_of line) line
      (prose_from (next_fence open_fence (fence_of line)) ls)

abbrev pub prose_lines : String → List String
prose_lines content = prose_from none (splitlines content)

pub digits : String → String
digits String.[] = String.[]
digits (String.◌∷◌ c s) =
    let more = String.◌∷◌ c (digits s) in if is_digit c then more else String.[]

abbrev pub with_head : Char → String → Option String
with_head c String.[] = none
with_head c ds = some (String.◌∷◌ c ds)

-- `(T\d+)`
unfoldable pub task_id : String → Option String
unfolding digits is_digit
task_id String.[] = none
task_id (String.◌∷◌ c s) = if is c b'T' then with_head c (digits s) else none

abbrev pub skip_bold : Option String → String → String
skip_bold none s = s
skip_bold (some rest) s = rest

-- `\s*(?:\*\*)?(T\d+)`
abbrev pub id_after_box : String → Option String
id_after_box s = let t = skip_spaces s in task_id (skip_bold (after_prefix "**" t) t)

abbrev pub id_after_close : Option String → Option String
id_after_close none = none
id_after_close (some rest) = id_after_box rest

abbrev pub id_in_box : (Char → Bool) → Option String → Option String
id_in_box box none = none
id_in_box box (some String.[]) = none
id_in_box box (some (String.◌∷◌ c s)) = if box c then id_after_close (after_prefix "]" s) else none

abbrev pub is_bullet : Char → Bool
is_bullet c = is c b'-' || is c b'*' || is c b'+'

abbrev pub id_after_bullet : (Char → Bool) → String → Option String
id_after_bullet box String.[] = none
id_after_bullet box (String.◌∷◌ c s) =
    if is_bullet c then id_in_box box (after_prefix "[" (skip_spaces s)) else none

abbrev pub is_ticked : Char → Bool
is_ticked c = is c b'x' || is c b'X'

-- `COMPLETED_TASK_RE.match(line)`, its group
unfoldable pub completed_task : String → Option String
unfolding task_id after_prefix skip_spaces is_space
completed_task line = id_after_bullet is_ticked (skip_spaces line)

-- `PENDING_TASK_RE.match(line)`, its group
unfoldable pub pending_task : String → Option String
unfolding task_id after_prefix skip_spaces is_space
pending_task line = id_after_bullet is_space (skip_spaces line)

-- All ids and the completed ones, in document order.
pub record Markers : Type 0 where
  pub all_ids : List String
  pub done_ids : List String

abbrev pub no_markers : Markers
no_markers = record { all_ids = []; done_ids = [] }

abbrev pub add_marker : Option String → Option String → Markers → Markers
add_marker (some id) _ m = record { all_ids = id ∷ m.all_ids; done_ids = id ∷ m.done_ids }
add_marker none (some id) m = record m { all_ids = id ∷ m.all_ids }
add_marker none none m = m

unfoldable pub markers_of : List String → Markers
unfolding completed_task pending_task
markers_of [] = no_markers
markers_of (line ∷ ls) = add_marker (completed_task line) (pending_task line) (markers_of ls)

-- A file that cannot be read has no markers.
unfoldable pub parse_task_markers : Option String → Markers
unfolding markers_of prose_from
parse_task_markers none = no_markers
parse_task_markers (some content) = markers_of (prose_lines content)
