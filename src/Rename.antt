-- ===== src/Rename.antt =====
-- packages/refactor-intelligence/src/rename-plan.ts: the edits of a project-wide rename, their
-- validation and their application. The text is that of the file's code units; `sha256` is the
-- hash of the runtime, and `canonical` the JSON text that the plan's identifier is the hash of.
pub mod Forward
pub mod Planned
pub mod Files
pub mod Create
pub mod Disk
use emacs_llvm.Base.{
  ℕ, ◌+◌, ◌-◌, ◌≡◌, refl, String, Bool, true, false, ◌&&◌, not, Option, none, some, List, [], ◌∷◌,
  ◌++◌, map, if◌then◌else◌, ltb, leb, ◌==◌, length, take, drop, str_eq,
}
use emacs_llvm.Base.Bytes.{Text, text_eq}
use emacs_llvm.Base.Map.{JsMap, get, set}
use emacs_llvm.Lisp.Occurrences.{occurs}
use emacs_llvm.Lisp.Tokens.{Token, Position, Diagnostic, scan_lisp}

pub record Edit : Type 0 where
  pub start : ℕ
  pub stop : ℕ
  pub place : Option Position
  pub old_text : Text
  pub new_text : Text

pub record PlannedFile : Type 0 where
  pub path : String
  pub sha256 : String
  pub bytes : ℕ
  pub edits : List Edit
  pub diagnostics : List Diagnostic

-- The members of a plan that validation and application read; `body` is the JSON text of all but
-- the identifier.
pub record RenamePlan : Type 0 where
  pub version : ℕ
  pub kind : String
  pub plan_id : String
  pub old_symbol : Text
  pub new_symbol : Text
  pub files : List PlannedFile
  pub body : Text

-- A `throw new Error(message)`.
pub data Checked {ℓ} (A : Type ℓ) : Type ℓ where
  done : A → Checked A
  failed : String → Checked A

infixl 5 ◌>>=◌ ◌>>◌
abbrev pub ◌>>=◌ {ℓ κ} : {T : Type ℓ} {U : Type κ} → Checked T → (T → Checked U) → Checked U
failed message >>= rest = failed message
done value >>= rest = rest value

abbrev pub ◌>>◌ {ℓ} : {U : Type ℓ} → Checked (Unit {0}) → Checked U → Checked U
tested >> rest = tested >>= λ u. rest

abbrev pub require : Bool → String → Checked (Unit {0})
require true message = done tt
require false message = failed message

-- What a successful outcome comes from.
pub >>=-eq-done :
    {A : Type 0} {B : Type 0} (m : Checked A) (f : A → Checked B) {b : B}
    → (m >>= f) ≡ done b
    → (a : A) × (m ≡ done a) × (f a ≡ done b)
>>=-eq-done (done a) f h = (a, refl, h)
>>=-eq-done (failed message) f h = cc

abbrev pub edit_of : Text → Text → Token → Edit
edit_of old_symbol new_symbol t = record {
  start = t.start;
  stop = t.stop;
  place = t.place;
  old_text = old_symbol;
  new_text = new_symbol;
}

-- `tokens.filter(…).map(…)`
unfoldable pub occurrences : Text → Text → List Token → List Edit
occurrences old_symbol new_symbol [] = []
occurrences old_symbol new_symbol (t ∷ ts) =
    let rest = occurrences old_symbol new_symbol ts in
    if occurs old_symbol t then edit_of old_symbol new_symbol t ∷ rest else rest

unfoldable pub edits_for : Text → Text → Text → List Edit × List Diagnostic
edits_for content old_symbol new_symbol =
    let (tokens, diagnostics) = scan_lisp false content in
    (occurrences old_symbol new_symbol tokens, diagnostics)

-- The inner loop of `validateRenamePlan`; `previous` is the end of the edit before, if there is one.
unfoldable pub validate_edits : Text → Text → ℕ → List Edit → Checked (Unit {0})
validate_edits old_symbol new_symbol previous [] = done tt
validate_edits old_symbol new_symbol previous (e ∷ es) = do
  require (ltb e.start e.stop) "invalid edit bounds"
  require (leb previous e.start) "edits must be sorted and non-overlapping"
  require (text_eq e.old_text old_symbol && text_eq e.new_text new_symbol)
      "edit does not match plan symbols"
  validate_edits old_symbol new_symbol e.stop es

unfoldable pub validate_files : Text → Text → List PlannedFile → Checked (Unit {0})
validate_files old_symbol new_symbol [] = done tt
validate_files old_symbol new_symbol (f ∷ fs) = do
  validate_edits old_symbol new_symbol 0 f.edits
  validate_files old_symbol new_symbol fs

-- `[...file.edits].sort((a, b) => b.start - a.start)`: stable, the last edit first.
abbrev insert_edit : Edit → List Edit → List Edit
insert_edit e [] = e ∷ []
insert_edit e (x ∷ xs) =
    let later = x ∷ insert_edit e xs in if leb x.start e.start then e ∷ x ∷ xs else later

unfoldable pub last_first : List Edit → List Edit
last_first [] = []
last_first (e ∷ es) = insert_edit e (last_first es)

-- `result.slice(start, end)`
abbrev pub slice : ℕ → ℕ → Text → Text
slice start stop cs = take (stop - start) (drop start cs)

unfoldable pub replace_each : Text → List Edit → Checked Text
replace_each result [] = done result
replace_each result (e ∷ es) =
    let rest = replace_each (take e.start result ++ (e.new_text ++ drop e.stop result)) es in
    if text_eq (slice e.start e.stop result) e.old_text then rest else failed "stale edit"

module _ (sha256 : Text → String) where
  unfoldable pub apply_edits : Text → PlannedFile → Checked Text
  apply_edits content file =
      if str_eq (sha256 content) file.sha256
      then replace_each content (last_first file.edits)
      else failed "stale file"

  unfoldable pub validate_rename_plan : RenamePlan → Checked (Unit {0})
  validate_rename_plan plan = do
    require (plan.version == 1 && str_eq plan.kind "lisp_project_rename") "unsupported rename plan"
    require (str_eq (sha256 plan.body) plan.plan_id) "rename plan integrity check failed"
    validate_files plan.old_symbol plan.new_symbol plan.files

  unfoldable pub apply_files : List PlannedFile → JsMap Text → Checked (JsMap Text)
  apply_files [] output = done output
  apply_files (f ∷ fs) output = elim (get f.path output) [
    | none ↦ failed "missing file content"
    | some content ↦ apply_edits content f >>= λ result. apply_files fs (set f.path result output)
  ]

  unfoldable pub apply_rename_plan_to_map : RenamePlan → JsMap Text → Checked (JsMap Text)
  apply_rename_plan_to_map plan contents = do
    validate_rename_plan plan
    apply_files plan.files contents
