-- ===== src/Deltas/Parse.antt =====
-- `_split_requirements` and `parse_spec_deltas`.
use saga_forge.Base.{
  Bool, true, false, not, ◌&&◌, ◌||◌, List, [], ◌∷◌, ◌++◌, String, Option, none, some,
  if◌then◌else◌, map, is_some, str_eq,
}
use saga_forge.Text.{cat, join_with, rstrip, splitlines, starts, after_prefix}
use saga_forge.Deltas.Grammar.{
  Verb, added, modified, removed, renamed, delta_header, cap_marker, req_heading, rename_sides,
}

-- A requirement of a block: its heading and its section, the heading line included.
pub record Requirement : Type 0 where
  pub heading : String
  pub section : String

abbrev section_text : List String → String
section_text ls = cat (rstrip (join_with "\n" ls)) "\n"

-- The loop of `_split_requirements`: the requirements so far, and the open one with its lines.
abbrev close_open : List Requirement → Option String → List String → List Requirement
close_open done none ls = done
close_open done (some head) ls = done ++ record { heading = head; section = section_text ls } ∷ []

abbrev extend : Option String → List String → String → List String
extend none ls line = ls
extend (some _) ls line = ls ++ line ∷ []

unfoldable pub split_from :
    List Requirement → Option String → List String → List String → List Requirement
unfolding req_heading rstrip
split_from done head open_lines [] = close_open done head open_lines
split_from done head open_lines (line ∷ ls) = elim (req_heading line) [
  | some h ↦ split_from (close_open done head open_lines) (some h) (line ∷ []) ls
  | none ↦ split_from done head (extend head open_lines line) ls
]

unfoldable pub split_requirements : String → List Requirement
unfolding split_from
split_requirements body = split_from [] none [] (splitlines body)

-- A unit with the capability of the block it came from; `unit_caps` runs parallel in the source.
pub record Routed (A : Type 0) : Type 0 where
  pub value : A
  pub cap : Option String

pub record Deltas : Type 0 where
  pub additions : List (Routed Requirement)
  pub modifications : List (Routed Requirement)
  pub removals : List (Routed String)
  pub renames : List (Routed (String × String))

abbrev pub no_deltas : Deltas
no_deltas = record { additions = []; modifications = []; removals = []; renames = [] }

abbrev with_cap : {A : Type 0} → Option String → List A → List (Routed A)
with_cap cap [] = []
with_cap cap (x ∷ xs) = record { value = x; cap = cap } ∷ with_cap cap xs

abbrev add_rename : Option (String × String) → List (String × String) → List (String × String)
add_rename none rs = rs
add_rename (some r) rs = r ∷ rs

abbrev renames_of : List Requirement → List (String × String)
renames_of [] = []
renames_of (r ∷ rs) = add_rename (rename_sides r.heading) (renames_of rs)

abbrev flush_units : Verb → Option String → List Requirement → Deltas → Deltas
flush_units added cap rs d = record d { additions = d.additions ++ with_cap cap rs }
flush_units modified cap rs d = record d { modifications = d.modifications ++ with_cap cap rs }
flush_units removed cap rs d = record d {
  removals = d.removals ++ with_cap cap (map (λ r. r.heading) rs);
}
flush_units renamed cap rs d = record d { renames = d.renames ++ with_cap cap (renames_of rs) }

-- `flush`
unfoldable pub flush : Option Verb → List String → Deltas → Deltas
unfolding split_requirements cap_marker rename_sides
flush none buf d = d
flush (some v) buf d =
    let body = join_with "\n" buf in flush_units v (cap_marker body) (split_requirements body) d

-- The loop of `parse_spec_deltas`: the open block's verb and its lines.
pub record Scan : Type 0 where
  pub verb : Option Verb
  pub buf : List String
  pub out : Deltas

abbrev open_block : Verb → Scan → Scan
open_block v s = record { verb = some v; buf = []; out = flush s.verb s.buf s.out }

abbrev close_block : Scan → Scan
close_block s = record { verb = none; buf = []; out = flush s.verb s.buf s.out }

abbrev scan_line : Option Verb → String → Scan → Scan
scan_line (some v) line s = open_block v s
scan_line none line s =
    if is_some s.verb && starts line "## "
    then close_block s
    else if is_some s.verb
    then record s { buf = s.buf ++ line ∷ [] }
    else s

unfoldable pub scan_lines : List String → Scan → Scan
unfolding delta_header flush
scan_lines [] s = s
scan_lines (line ∷ ls) s = scan_lines ls (scan_line (delta_header line) line s)

unfoldable pub parse_spec_deltas : String → Deltas
unfolding scan_lines after_prefix
parse_spec_deltas text =
    (close_block
      (scan_lines (splitlines text) (record { verb = none; buf = []; out = no_deltas }))).out

abbrev pub is_nil : {A : Type 0} → List A → Bool
is_nil [] = true
is_nil (_ ∷ _) = false

-- `_has_deltas`
abbrev pub has_deltas : Deltas → Bool
has_deltas d =
    not (is_nil d.additions)
    || not (is_nil d.modifications)
    || not (is_nil d.removals)
    || not (is_nil d.renames)

-- A unit belongs to a capability by its marker, or without one to the default.
abbrev pub belongs : String → Bool → Option String → Bool
belongs name is_default none = is_default
belongs name is_default (some cap) = str_eq cap name

abbrev pub keep_units : {A : Type 0} → String → Bool → List (Routed A) → List (Routed A)
keep_units name is_default [] = []
keep_units name is_default (u ∷ us) =
    let rest = keep_units name is_default us in
    if belongs name is_default u.cap then u ∷ rest else rest

-- `_deltas_for`
unfoldable pub deltas_for : Deltas → String → Bool → Deltas
deltas_for d name is_default = record {
  additions = keep_units name is_default d.additions;
  modifications = keep_units name is_default d.modifications;
  removals = keep_units name is_default d.removals;
  renames = keep_units name is_default d.renames;
}
