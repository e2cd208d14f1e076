-- ===== src/Deltas/Apply.antt =====
-- `apply_deltas`: the requirement deltas of one capability, applied to the text of its living spec.
use saga_forge.Base.{
  ℕ, suc, Bool, true, false, not, ◌&&◌, List, [], ◌∷◌, ◌++◌, String, Option, none, some,
  if◌then◌else◌, str_eq, elem, is_some, map,
}
use saga_forge.Text.{rstrip_breaks, cat, rstrip, splitlines, join_with}
use saga_forge.Deltas.Parse.{Requirement, Routed, Deltas}
use saga_forge.Deltas.Sections.{Span, requirement_span, span_from}
use saga_forge.Deltas.MarkerLines.{keep_marker, has_adopted}
use saga_forge.Deltas.Titles.{retitle_line, retitle, add_requirement}
use saga_forge.Deltas.Renames.{Renames, rename_map, resolve_rename, keys}

-- The counts per verb of what was applied.
pub record Applied : Type 0 where
  pub added : ℕ
  pub modified : ℕ
  pub removed : ℕ
  pub renamed : ℕ
  pub promoted : ℕ
  pub promoted_present : ℕ
  pub confirmed : ℕ

abbrev pub none_applied : Applied
none_applied = record {
  added = 0;
  modified = 0;
  removed = 0;
  renamed = 0;
  promoted = 0;
  promoted_present = 0;
  confirmed = 0;
}

-- The lines of the living spec and the counts, between two deltas.
pub record Fold : Type 0 where
  pub lines : List String
  pub applied : Applied

abbrev pub values : {A : Type 0} → List (Routed A) → List A
values [] = []
values (u ∷ us) = u.value ∷ values us

abbrev pub resolve_all : Renames → List String → List String
resolve_all m [] = []
resolve_all m (h ∷ hs) = resolve_rename h m ∷ resolve_all m hs

abbrev retitle_span : Span → String → List String
retitle_span s new = elim s.section [
  | [] ↦ s.before ++ s.after
  | line ∷ body ↦ s.before ++ (retitle_line line new ∷ body) ++ s.after
]

abbrev rename_found : String → Option Span → Option Span → Fold → Fold
rename_found final (some s) none f = record {
  lines = retitle_span s final;
  applied = record (f.applied) { renamed = suc f.applied.renamed };
}
rename_found final _ _ f = f

-- RENAMED: each heading straight to the end of its chain, unless that name is taken.
unfoldable pub apply_renames : Renames → List String → Fold → Fold
unfolding span_from retitle_line resolve_rename
apply_renames m [] f = f
apply_renames m (old ∷ olds) f =
    let final = resolve_rename old m in
    apply_renames m olds
      (rename_found final (requirement_span f.lines old) (requirement_span f.lines final) f)

abbrev remove_found : Option Span → Fold → Fold
remove_found none f = f
remove_found (some s) f = record {
  lines = s.before ++ s.after;
  applied = record (f.applied) { removed = suc f.applied.removed };
}

-- REMOVED, unless the same set puts the heading back.
unfoldable pub apply_removals : Renames → List String → List String → Fold → Fold
unfolding span_from resolve_rename
apply_removals m kept [] f = f
apply_removals m kept (head ∷ heads) f = apply_removals m kept heads (
    if elem (resolve_rename head m) kept then f else remove_found (requirement_span f.lines head) f)

abbrev is_nil : List String → Bool
is_nil [] = true
is_nil (_ ∷ _) = false

-- The blank line that separates the next requirement.
abbrev separated : List String → List String → List String
separated body after = if is_nil after then body else body ++ "" ∷ []

abbrev count_if : Bool → ℕ → ℕ
count_if true n = suc n
count_if false n = n

abbrev modify_found : Requirement → Option Span → Fold → Fold
modify_found r none f = f
modify_found r (some s) f =
    let body = keep_marker s.section (splitlines (rstrip_breaks r.section)) in
    record {
      lines = s.before ++ separated body s.after ++ s.after;
      applied = record (f.applied) {
        modified = suc f.applied.modified;
        confirmed = count_if (has_adopted s.section && not (has_adopted body)) f.applied.confirmed;
      };
    }

abbrev promote_if : Requirement → Option Span → List Requirement → List Requirement
promote_if r none rs = rs ++ r ∷ []
promote_if r (some _) rs = rs

-- MODIFIED, and the units that found no heading.
unfoldable pub apply_modifications :
    List Requirement → Fold → List Requirement → Fold × List Requirement
unfolding span_from keep_marker has_adopted rstrip_breaks
apply_modifications [] f promoted = (f, promoted)
apply_modifications (r ∷ rs) f promoted =
    let s = requirement_span f.lines r.heading in
    apply_modifications rs (modify_found r s f) (promote_if r s promoted)

-- The text, once the lines are joined, and the counts.
pub record Text : Type 0 where
  pub content : String
  pub applied : Applied

-- `{head: section for …}`: the last section of a heading, if it is not empty.
abbrev last_body : String → List Requirement → Option String
last_body h [] = none
last_body h (r ∷ rs) = elim (last_body h rs) [
  | some s ↦ some s
  | none ↦ if str_eq r.heading h then some r.section else none
]

abbrev or_body : Option String → String → String
or_body none d = d
or_body (some s) d = if str_eq s "" then d else s

-- ADDED, unless the final heading is there already.
unfoldable pub apply_additions : Renames → List Requirement → List Requirement → Text → Text
unfolding resolve_rename span_from add_requirement retitle
apply_additions m bodies [] t = t
apply_additions m bodies (r ∷ rs) t =
    let target = resolve_rename r.heading m in
    let body = or_body (last_body target bodies) (or_body (last_body r.heading bodies) r.section) in
    apply_additions m bodies rs (
      if is_some (requirement_span (splitlines t.content) target) then t else record {
        content = add_requirement t.content (retitle body target);
        applied = record (t.applied) { added = suc t.applied.added };
      })

-- A MODIFIED that found no heading is added.
unfoldable pub apply_promotions : Renames → List Requirement → Text → Text
unfolding resolve_rename span_from add_requirement retitle
apply_promotions m [] t = t
apply_promotions m (r ∷ rs) t =
    let target = resolve_rename r.heading m in
    apply_promotions m rs (
      if is_some (requirement_span (splitlines t.content) target)
      then record t {
        applied = record (t.applied) { promoted_present = suc t.applied.promoted_present };
      }
      else record {
        content = add_requirement t.content (retitle r.section target);
        applied = record (t.applied) { promoted = suc t.applied.promoted };
      })

-- The headings that the set puts back: additions, and targets of renames.
abbrev put_back : Renames → Deltas → List String
put_back m d = resolve_all m (map (λ r. r.heading) (values d.additions)) ++ resolve_all m (keys m)

abbrev pub edited : Renames → Deltas → List String → Fold × List Requirement
edited m d ls =
    apply_modifications (values d.modifications)
      (apply_removals m (put_back m d) (values d.removals)
        (apply_renames m (keys m) (record { lines = ls; applied = none_applied })))
      []

abbrev extended : Renames → Deltas → Fold × List Requirement → Text
extended m d (f, promoted) = apply_promotions m promoted (
    apply_additions m (values d.modifications) (values d.additions)
      (record { content = cat (rstrip (join_with "\n" f.lines)) "\n"; applied = f.applied }))

unfoldable pub apply_deltas : String → Deltas → Text
unfolding rename_map apply_renames apply_removals apply_modifications apply_additions
    apply_promotions rstrip
apply_deltas text d =
    let m = rename_map (values d.renames) in extended m d (edited m d (splitlines text))
