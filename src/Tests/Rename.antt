-- ===== src/Tests/Rename.antt =====
-- Renames at concrete texts. The hash is a constant one.
use emacs_llvm.Base.{
  subst, some, ◌≡◌, ◌≢◌, refl, eq_iff, str_eq, String, true, false, some, List, [], ◌∷◌, All,
}
use emacs_llvm.Base.Bytes.{Text, codes, strip_prefix, text_eq}
use emacs_llvm.Base.Map.{JsMap, get, set, delete}
use emacs_llvm.Lisp.Scanner.{next_piece, span, word, skip_string, skip_block_comment}
use emacs_llvm.Lisp.Tokens.{add_piece, scan_from, scan_lisp, is_numeric, position_for}
use emacs_llvm.Rename.{
  Edit, PlannedFile, RenamePlan, done, failed, occurrences, edits_for, validate_edits,
  validate_files, last_first, replace_each, apply_edits, validate_rename_plan, apply_files,
  apply_rename_plan_to_map,
}
use emacs_llvm.Rename.Disk.{
  FileBytes, Disk, applied as in_place, preflight_file, preflight, prepare, write_back, restore,
  write_each, apply_rename_plan_to_filesystem,
}
use emacs_llvm.Rename.Disk.Written.{
  IsRewritten, IsOutside, apply_rename_plan_to_filesystem_succeeds,
}
use emacs_llvm.Rename.Disk.Unwritten.{apply_rename_plan_to_filesystem_failed}
use emacs_llvm.Rename.Forward.{Fits, forward}
use emacs_llvm.Rename.Planned.{edits_for-Fits}
use emacs_llvm.Rename.Files.{IsElsewhere, Applied, apply_rename_plan_to_map_lem}

renames : Unit {0}
unfolding apply_rename_plan_to_map apply_files validate_rename_plan apply_edits replace_each
    last_first validate_files validate_edits edits_for occurrences scan_lisp scan_from add_piece
    next_piece span word skip_string skip_block_comment strip_prefix text_eq is_numeric position_for
    get set forward delete preflight_file preflight prepare write_back restore write_each
    apply_rename_plan_to_filesystem
renames = tt

abbrev hash : Text → String
hash cs = "h"

abbrev source : Text
source = codes "(foo bar foo)"

abbrev edits : List Edit
edits = (edits_for source (codes "foo") (codes "quux")).0

abbrev file : PlannedFile
file = record { path = "a.el"; sha256 = "h"; bytes = 13; edits = edits; diagnostics = [] }

renamed : forward 0 source edits ≡ codes "(quux bar quux)"
unfolding renames
renamed = refl

abbrev plan : RenamePlan
plan = record {
  version = 1;
  kind = "lisp_project_rename";
  plan_id = "h";
  old_symbol = codes "foo";
  new_symbol = codes "quux";
  files = file ∷ [];
  body = codes "{}";
}

applied :
    apply_rename_plan_to_map hash plan (("a.el", source) ∷ ("b.el", source) ∷ [])
    ≡ done (("a.el", codes "(quux bar quux)") ∷ ("b.el", source) ∷ [])
unfolding renames
applied = refl

apply_rename_plan_to_map_lem_example :
    (plan.version ≡ 1)
    × (hash plan.body ≡ plan.plan_id)
    × All
        (Applied hash
          (("a.el", source) ∷ ("b.el", source) ∷ [])
          (("a.el", codes "(quux bar quux)") ∷ ("b.el", source) ∷ []))
        plan.files
    × ((path : String)
        → IsElsewhere hash path plan.files
        → get path (("a.el", codes "(quux bar quux)") ∷ ("b.el", source) ∷ [])
          ≡ get path (("a.el", source) ∷ ("b.el", source) ∷ []))
apply_rename_plan_to_map_lem_example =
    apply_rename_plan_to_map_lem hash plan (("a.el", source) ∷ ("b.el", source) ∷ [])
      (("a.el", codes "(quux bar quux)") ∷ ("b.el", source) ∷ []) (tt, tt) applied

-- The second file of the plan cannot be renamed into its place. Of ASCII, the UTF-8 is the text.
abbrev disk : Disk
disk = record {
  real_path = λ p. some p;
  resolve_in = λ root p. p;
  relative_to = λ root p. p;
  is_absolute = λ p. false;
  is_link = λ p. false;
  sha256 = hash;
  temporary = λ p. "t";
  decode = λ bytes. bytes;
  encode = λ text. text;
  writes = λ p. true;
  renames = λ p. str_eq p "a.el";
  restores = λ p. true;
}

abbrev both : RenamePlan
both = record plan { files = file ∷ record file { path = "b.el" } ∷ [] }

abbrev files : JsMap Text
files = ("a.el", source) ∷ ("b.el", source) ∷ []

-- The first one is written back; the new content of the second one is left under its temporary name.
taken_back : apply_rename_plan_to_filesystem disk both "/p" true files ≡ (
  failed "the file could not be replaced",
  ("a.el", source) ∷ ("b.el", source) ∷ ("t", codes "(quux bar quux)") ∷ [],
)
unfolding renames
taken_back = refl

apart : ◌≢◌ {A = String} "t" "a.el"
apart e = cc ((eq_iff "t" "a.el").1 e)

apply_rename_plan_to_filesystem_failed_example :
    get "a.el" (("a.el", source) ∷ ("b.el", source) ∷ ("t", codes "(quux bar quux)") ∷ [])
    ≡ get "a.el" files
unfolding get
apply_rename_plan_to_filesystem_failed_example =
    apply_rename_plan_to_filesystem_failed disk "/p" files both true
      (("a.el", source) ∷ ("b.el", source) ∷ ("t", codes "(quux bar quux)") ∷ [])
      "the file could not be replaced" "a.el" (λ p. refl) (λ p. apart) refl taken_back

abbrev whole : Disk
whole = record disk { renames = λ p. true }

abbrev files' : JsMap Text
files' = ("a.el", codes "(quux bar quux)") ∷ ("b.el", codes "(quux bar quux)") ∷ []

put_in_place :
    apply_rename_plan_to_filesystem whole both "/p" true files
    ≡ (done (in_place ("a.el" ∷ "b.el" ∷ [])), files')
unfolding renames
put_in_place = refl

other_name : ◌≢◌ {A = String} "t" "b.el"
other_name e = cc ((eq_iff "t" "b.el").1 e)

two_files : ◌≢◌ {A = String} "b.el" "a.el"
two_files e = cc ((eq_iff "b.el" "a.el").1 e)

edits_fit : (bytes : FileBytes) → some source ≡ some bytes → Fits 0 bytes edits
edits_fit bytes e =
    let same : source ≡ bytes = cc in
    subst (λ b. Fits 0 b edits) same (edits_for-Fits source (codes "foo") (codes "quux"))

apply_rename_plan_to_filesystem_succeeds_example :
    All (IsRewritten whole "/p" files files') both.files
    × ((path : String)
        → ((t : String) → whole.temporary t ≢ path)
        → IsOutside whole "/p" files path both.files
        → get path files' ≡ get path files)
unfolding get
apply_rename_plan_to_filesystem_succeeds_example =
    apply_rename_plan_to_filesystem_succeeds whole "/p" "/p" refl files both ("a.el" ∷ "b.el" ∷ [])
      files' ((two_files, tt), (tt, tt)) ((λ t. apart), ((λ t. other_name), tt))
      (edits_fit, (edits_fit, tt)) put_in_place
