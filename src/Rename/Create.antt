-- ===== src/Rename/Create.antt =====
-- packages/refactor-intelligence/src/rename-plan.ts: `createProjectRenamePlan`, with
-- `normalizedRelative`. Of the members of the input that are checked at run time, a missing one is
-- `none`.
pub mod Steps
pub mod Totals
pub mod Bounds
pub mod Applied
use emacs_llvm.Base.{
  ℕ, ◌+◌, String, Bool, true, false, ◌||◌, not, Option, none, some, List, [], ◌∷◌, ◌++◌,
  if◌then◌else◌, leb, length, str_eq,
}
use emacs_llvm.Base.Bytes.{Text}
use emacs_llvm.Policy.{goes_up}
use emacs_llvm.Lisp.Symbols.{Language, QualificationPolicy, Descriptor, Prepare, refused, prepared}
use emacs_llvm.Lisp.Symbols.Rename.{PreparedRename, prepare_symbol_rename}
use emacs_llvm.Rename.{
  Edit, PlannedFile, RenamePlan, Checked, done, failed, ◌>>=◌, ◌>>◌, require, edits_for,
}

pub record SourceFile : Type 0 where
  pub path : Option String
  pub content : Option Text

pub record Limits : Type 0 where
  pub max_files : ℕ
  pub max_bytes : ℕ
  pub max_edits : ℕ

-- `limits`, whose members may be missing.
pub record GivenLimits : Type 0 where
  pub max_files : Option ℕ
  pub max_bytes : Option ℕ
  pub max_edits : Option ℕ

abbrev given_or : Option ℕ → ℕ → ℕ
given_or none n = n
given_or (some n) m = n

unfoldable pub limits_of : GivenLimits → Limits
limits_of given = record {
  max_files = given_or given.max_files 500;
  max_bytes = given_or given.max_bytes 16777216;
  max_edits = given_or given.max_edits 10000;
}

-- What a plan's identifier is the hash of.
pub record PlanBody : Type 0 where
  pub root : String
  pub symbol_semantics : PreparedRename
  pub old_symbol : Text
  pub requested_new_symbol : Text
  pub files : List PlannedFile
  pub total_edits : ℕ
  pub limits : Limits

-- The variables of the loop over the files.
pub record Planning : Type 0 where
  pub total_bytes : ℕ
  pub total_edits : ℕ
  pub planned : List PlannedFile

abbrev pub nothing_planned : Planning
nothing_planned = record { total_bytes = 0; total_edits = 0; planned = [] }

abbrev pub semantics_of : Prepare PreparedRename → Checked PreparedRename
semantics_of (refused reason) = failed "the symbols cannot be renamed"
semantics_of (prepared p) = done p

abbrev pub given_root : (String → Bool) → Option String → Checked String
given_root is_absolute none = failed "root must be an absolute path"
given_root is_absolute (some root) =
    if is_absolute root then done root else failed "root must be an absolute path"

abbrev pub given_files : Option (List SourceFile) → Checked (List SourceFile)
given_files none = failed "files must be an array"
given_files (some files) = done files

abbrev pub given_file : SourceFile → Option (String × Text)
given_file f = elim f.path [
  | none ↦ none
  | some path ↦ elim f.content [ none ↦ none | some content ↦ some (path, content) ]
]

-- `planned.push(…)`, if there are edits.
abbrev pub pushed_for : List Edit → List PlannedFile → PlannedFile → List PlannedFile
pushed_for [] planned f = planned
pushed_for (e ∷ es) planned f = planned ++ f ∷ []

abbrev pub pushed : List PlannedFile → PlannedFile → List PlannedFile
pushed planned f = pushed_for f.edits planned f

-- What the runtime gives: `resolve` and `resolve_in` are `path.resolve` of one argument and of two,
-- `portable` puts `/` for the platform's separator, `byte_length` is the length in UTF-8, `upper` is
-- `toUpperCase`, `before p q` says that `p.localeCompare(q)` is not positive, and `canonical` is the
-- JSON text of a plan's body, with the members of each object in order.
pub record Host : Type 0 where
  pub resolve : String → String
  pub resolve_in : String → String → String
  pub relative_to : String → String → String
  pub is_absolute : String → Bool
  pub portable : String → String
  pub byte_length : Text → ℕ
  pub sha256 : Text → String
  pub upper : Text → Text
  pub before : String → String → Bool
  pub canonical : PlanBody → Text

module _ (host : Host) where
  open host use {
    resolve, resolve_in, relative_to, is_absolute, portable, byte_length, sha256, before, canonical,
  }

  -- The sort is stable.
  abbrev pub insert_file : PlannedFile → List PlannedFile → List PlannedFile
  insert_file f [] = f ∷ []
  insert_file f (g ∷ gs) =
      let later = g ∷ insert_file f gs in if before f.path g.path then f ∷ g ∷ gs else later

  unfoldable pub by_path : List PlannedFile → List PlannedFile
  by_path [] = []
  by_path (f ∷ fs) = insert_file f (by_path fs)

  unfoldable pub normalized_relative : String → String → Checked String
  normalized_relative root file =
      let relative = relative_to (resolve root) (resolve_in root file) in
      if str_eq relative "" || goes_up relative || is_absolute relative
      then failed "file is outside project root"
      else done (portable relative)

  abbrev pub planned_file : Text → Text → String → Text → PlannedFile
  planned_file old_symbol new_symbol path content = record {
    path = path;
    sha256 = sha256 content;
    bytes = byte_length content;
    edits = (edits_for content old_symbol new_symbol).0;
    diagnostics = (edits_for content old_symbol new_symbol).1;
  }

  -- One round: the file's bytes and edits are counted before they are held against the limits.
  unfoldable pub plan_file :
      Limits → String → Text → Text → String × Text → Planning → Checked Planning
  plan_file limits root old_symbol new_symbol (path, content) p = do
    relative ← normalized_relative root path
    let file = planned_file old_symbol new_symbol relative content
    require (leb (p.total_bytes + byte_length content) limits.max_bytes)
        "rename plan exceeds maxBytes"
    require (leb (p.total_edits + length file.edits) limits.max_edits)
        "rename plan exceeds maxEdits"
    done (record {
      total_bytes = p.total_bytes + byte_length content;
      total_edits = p.total_edits + length file.edits;
      planned = pushed p.planned file;
    })

  unfoldable pub plan_files :
      Limits → String → Text → Text → List SourceFile → Planning → Checked Planning
  plan_files limits root old_symbol new_symbol [] p = done p
  plan_files limits root old_symbol new_symbol (f ∷ fs) p = elim (given_file f) [
    | none ↦ failed "each file requires path and content"
    | some file ↦
        plan_file limits root old_symbol new_symbol file p
        >>= plan_files limits root old_symbol new_symbol fs
  ]

  unfoldable pub plan_of : PlanBody → RenamePlan
  plan_of body = record {
    version = 1;
    kind = "lisp_project_rename";
    plan_id = sha256 (canonical body);
    old_symbol = body.old_symbol;
    new_symbol = body.symbol_semantics.effective_new_symbol;
    files = body.files;
    body = canonical body;
  }

  abbrev pub body_of : String → Text → Text → Limits → PreparedRename → Planning → PlanBody
  body_of root old_symbol new_symbol limits semantics p = record {
    root = resolve root;
    symbol_semantics = semantics;
    old_symbol = old_symbol;
    requested_new_symbol = new_symbol;
    files = by_path p.planned;
    total_edits = p.total_edits;
    limits = limits;
  }

  -- From the count of the files on. The plan comes with all its members, and as the functions read
  -- it that take a plan.
  unfoldable pub planned_within :
      Limits
      → Text
      → Text
      → PreparedRename
      → String
      → List SourceFile
      → Checked (PlanBody × RenamePlan)
  planned_within limits old_symbol new_symbol semantics root files = do
    require (leb (length files) limits.max_files) "rename plan exceeds maxFiles"
    p ← plan_files limits root old_symbol semantics.effective_new_symbol files nothing_planned
    let body = body_of root old_symbol new_symbol limits semantics p
    done (body, plan_of body)

  unfoldable pub create_project_rename_plan :
      Option String
      → Option (List SourceFile)
      → Text
      → Text
      → Option String
      → Option String
      → GivenLimits
      → Checked (PlanBody × RenamePlan)
  create_project_rename_plan root files old_symbol new_symbol language policy given = do
    semantics ←
        semantics_of (prepare_symbol_rename host.upper old_symbol new_symbol language policy)
    root' ← given_root is_absolute root
    files' ← given_files files
    planned_within (limits_of given) old_symbol new_symbol semantics root' files'
