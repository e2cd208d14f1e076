-- ===== src/Tasks/Boxing.antt =====
-- The flip of `_mark_tasks_done` under the patterns of `parse_task_markers`.
use saga_forge.Base.{
  List, elem, Bool, true, false, Char, code, String, Option, none, some, ◌≡◌, inl, inr, Bool-cases,
  Option-cases, arith, ◌==◌,
}
use saga_forge.Text.{skip_spaces, is_space, after_prefix, is}
use saga_forge.Tasks.Marks.{
  completed_task, pending_task, id_after_bullet, id_in_box, is_bullet, is_ticked,
}
use saga_forge.Tasks.Boxes.{check_box, flip_line}

-- The box of an unticked task as it is written, with one space.
abbrev pub is_plain : Char → Bool
is_plain c = is c b' '

no_bracket : (c : Char) → is_space c ≡ true → (91 == code c) ≡ false
unfolding is_space
no_bracket c h = ground arith

check_box_space :
    (c : Char) (s : String)
    → (91 == code c) ≡ false
    → check_box (String.◌∷◌ c s) ≡ String.◌∷◌ c (check_box s)
unfolding check_box after_prefix
check_box_space c s h = rw h

skip_spaces_space :
    (c : Char) (s : String) → is_space c ≡ true → skip_spaces (String.◌∷◌ c s) ≡ skip_spaces s
unfolding skip_spaces
skip_spaces_space c s h = rw h

skip_spaces_other :
    (c : Char) (s : String) → is_space c ≡ false → skip_spaces (String.◌∷◌ c s) ≡ String.◌∷◌ c s
unfolding skip_spaces
skip_spaces_other c s h = rw h

plain_space : (d : Char) → is_plain d ≡ true → (32 == code d) ≡ true
plain_space d h = ground arith

check_box_here :
    (c d : Char) (t rest : String)
    → (91 == code c) ≡ true
    → is_plain d ≡ true
    → after_prefix "]" t ≡ some rest
    → check_box (String.◌∷◌ c (String.◌∷◌ d t))
      ≡ String.◌∷◌ "[" (String.◌∷◌ "x" (String.◌∷◌ "]" rest))
unfolding check_box after_prefix
check_box_here c d t rest bracket plain close = rw (bracket, plain_space d plain, close)

within_box :
    (c : Char) (s id : String)
    → (91 == code c) ≡ true
    → id_in_box is_plain (some s) ≡ some id
    → id_in_box is_ticked (after_prefix "[" (skip_spaces (check_box (String.◌∷◌ c s)))) ≡ some id
unfolding after_prefix skip_spaces is_space
within_box c String.[] id bracket h = cc
within_box c (String.◌∷◌ d t) id bracket h = elim (Bool-cases (is_plain d)) [
  | inr other ↦ let nothing : none ≡ some id = rw other at h in cc
  | inl plain ↦ elim (Option-cases (after_prefix "]" t)) [
    | inl unclosed ↦ let nothing : none ≡ some id = rw (plain, unclosed) at h in cc
    | inr (rest, close) ↦
        rw (check_box_here c d t rest bracket plain close) (rw (plain, close) at h)
  ]
]

-- At the box itself.
check_box-opens :
    (c : Char) (s id : String)
    → id_in_box is_plain (after_prefix "[" (String.◌∷◌ c s)) ≡ some id
    → id_in_box is_ticked (after_prefix "[" (skip_spaces (check_box (String.◌∷◌ c s)))) ≡ some id
unfolding after_prefix skip_spaces
check_box-opens c s id h = elim (Bool-cases (91 == code c)) [
  | inr other ↦ let nothing : none ≡ some id = rw other at h in cc
  | inl bracket ↦ within_box c s id bracket (rw bracket at h)
]

-- Behind the bullet.
check_box-ticks :
    (s id : String)
    → id_in_box is_plain (after_prefix "[" (skip_spaces s)) ≡ some id
    → id_in_box is_ticked (after_prefix "[" (skip_spaces (check_box s))) ≡ some id
unfolding check_box after_prefix skip_spaces
check_box-ticks String.[] id h = cc
check_box-ticks (String.◌∷◌ c s) id h = elim (Bool-cases (is_space c)) [
  | inl space ↦
      rw (check_box_space c s (no_bracket c space), skip_spaces_space c (check_box s) space)
        (check_box-ticks s id (rw (skip_spaces_space c s space) at h))
  | inr other ↦ check_box-opens c s id (rw (skip_spaces_other c s other) at h)
]

bullet_no_bracket : (c : Char) → is_bullet c ≡ true → (91 == code c) ≡ false
bullet_no_bracket c h = ground arith

completed_task-check_box :
    (line id : String)
    → id_after_bullet is_plain (skip_spaces line) ≡ some id
    → completed_task (check_box line) ≡ some id
unfolding completed_task
completed_task-check_box String.[] id h = cc
completed_task-check_box (String.◌∷◌ c s) id h = elim (Bool-cases (is_space c)) [
  | inl space ↦
      rw (check_box_space c s (no_bracket c space), skip_spaces_space c (check_box s) space)
        (completed_task-check_box s id (rw (skip_spaces_space c s space) at h))
  | inr other ↦
      let at_bullet : id_after_bullet is_plain (String.◌∷◌ c s) ≡ some id =
        rw (skip_spaces_other c s other) at h in
      elim (Bool-cases (is_bullet c)) [
        | inr no_item ↦ let nothing : none ≡ some id = rw no_item at at_bullet in cc
        | inl bullet ↦
            rw
              (
                check_box_space c s (bullet_no_bracket c bullet),
                skip_spaces_other c (check_box s) other,
                bullet,
              )
              (check_box-ticks s id (rw bullet at at_bullet))
      ]
]

plain_is_space : (d : Char) → is_plain d ≡ true → is_space d ≡ true
unfolding is_space
plain_is_space d h = ground arith

plain_in_box :
    (o : Option String) (id : String)
    → id_in_box is_plain o ≡ some id
    → id_in_box is_space o ≡ some id
plain_in_box none id h = cc
plain_in_box (some String.[]) id h = cc
plain_in_box (some (String.◌∷◌ d t)) id h = elim (Bool-cases (is_plain d)) [
  | inr other ↦ let nothing : none ≡ some id = rw other at h in cc
  | inl plain ↦ rw (plain_is_space d plain) (rw plain at h)
]

plain_is_pending :
    (s id : String) → id_after_bullet is_plain s ≡ some id → id_after_bullet is_space s ≡ some id
plain_is_pending String.[] id h = cc
plain_is_pending (String.◌∷◌ c s) id h = elim (Bool-cases (is_bullet c)) [
  | inr other ↦ let nothing : none ≡ some id = rw other at h in cc
  | inl bullet ↦ rw bullet (plain_in_box (after_prefix "[" (skip_spaces s)) id (rw bullet at h))
]

-- A line of `tasks.md` with an unticked task, its box written with one space, is read as that task
-- completed once the boxes of tasks are flipped that the task is among.
pub completed_task-flip_line :
    (ids : List String) (line id : String)
    → id_after_bullet is_plain (skip_spaces line) ≡ some id
    → elem id ids ≡ true
    → completed_task (flip_line ids line) ≡ some id
unfolding pending_task
completed_task-flip_line ids line id h due =
    rw (plain_is_pending (skip_spaces line) id h, due) (completed_task-check_box line id h)
