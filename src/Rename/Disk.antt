-- ===== src/Rename/Disk.antt =====
-- packages/refactor-intelligence/src/rename-plan.ts: `applyRenamePlanToFilesystem`, over the regular
-- files of a disk by their absolute paths. No other process writes meanwhile.
pub mod Prepared
pub mod Unwritten
pub mod Written
use emacs_llvm.Base.{
  ℕ, String, Bool, true, false, ◌||◌, not, Option, none, some, List, [], ◌∷◌, if◌then◌else◌,
}
use mathlib.Core.List.{reverse}
use emacs_llvm.Base.Bytes.{Text}
use emacs_llvm.Base.Map.{JsMap, get, set, delete}
use emacs_llvm.Policy.{goes_up}
use emacs_llvm.Rename.{
  PlannedFile, RenamePlan, Checked, done, failed, ◌>>=◌, ◌>>◌, require, apply_edits,
  validate_rename_plan,
}

-- What a file has.
abbrev pub FileBytes : Type 0
FileBytes = List ℕ

-- What the runtime and the disk do: `resolve_in` and `relative_to` are functions of `node:path`,
-- `real_path` is that of the plan's root, if it is there, `temporary` is the name of the file that a
-- path's new content is first written to, `decode` and `encode` read and write UTF-8, where reading
-- puts U+FFFD in place of what is not valid, and the last three say which calls succeed: writing a
-- temporary file, renaming it, and writing a file back.
pub record Disk : Type 0 where
  pub real_path : String → Option String
  pub resolve_in : String → String → String
  pub relative_to : String → String → String
  pub is_absolute : String → Bool
  pub is_link : String → Bool
  pub sha256 : Text → String
  pub temporary : String → String
  pub decode : FileBytes → Text
  pub encode : Text → FileBytes
  pub writes : String → Bool
  pub renames : String → Bool
  pub restores : String → Bool

-- `originals` and `replacements`.
pub record Preflight : Type 0 where
  pub originals : JsMap Text
  pub replacements : JsMap Text

pub data Status : Type 0 where
  preflight_ok : List String → Status
  applied : List String → Status

abbrev pub keys : JsMap Text → List String
keys [] = []
keys ((path, content) ∷ rest) = path ∷ keys rest

abbrev pub found : {A : Type 0} → String → Option A → Checked A
found message none = failed message
found message (some a) = done a

module _ (disk : Disk) where
  -- One file of the plan: nothing is written yet.
  unfoldable pub preflight_file :
      String → JsMap FileBytes → PlannedFile → Preflight → Checked Preflight
  preflight_file root files f p = do
    let path = disk.resolve_in root f.path
    let relative = disk.relative_to root path
    require (not (goes_up relative || disk.is_absolute relative)) "file escaped project root"
    require (not (disk.is_link path)) "symbolic link is not allowed"
    bytes ← found "no such file" (get path files)
    let content = disk.decode bytes
    result ← apply_edits disk.sha256 content f
    done (record {
      originals = set path content p.originals;
      replacements = set path result p.replacements;
    })

  unfoldable pub preflight :
      String → JsMap FileBytes → List PlannedFile → Preflight → Checked Preflight
  preflight root files [] p = done p
  preflight root files (f ∷ fs) p = preflight_file root files f p >>= preflight root files fs

  -- `fs.writeFile(abs, originals.get(abs)).catch(() => {})`
  unfoldable pub write_back : JsMap Text → String → JsMap FileBytes → JsMap FileBytes
  write_back originals path files = elim (get path originals) [
    | none ↦ files
    | some content ↦ if disk.restores path then set path (disk.encode content) files else files
  ]

  -- The `catch` clause, over the written files, the last one first.
  unfoldable pub restore : JsMap Text → List String → JsMap FileBytes → JsMap FileBytes
  restore originals [] files = files
  restore originals (path ∷ paths) files = restore originals paths (write_back originals path files)

  abbrev given_up :
      JsMap Text → List String → JsMap FileBytes → Checked (List String) × JsMap FileBytes
  given_up originals written files =
      (failed "the file could not be replaced", restore originals written files)

  -- The loop of the `try` block; `written` has the last file first.
  unfoldable pub write_each :
      JsMap Text
      → JsMap Text
      → List String
      → JsMap FileBytes
      → Checked (List String) × JsMap FileBytes
  write_each originals [] written files = (done (reverse written), files)
  write_each originals ((path, content) ∷ rest) written files =
      let temporary = disk.temporary path in
      let bytes = disk.encode content in
      let there = set temporary bytes files in
      let renamed =
        write_each originals rest (path ∷ written) (set path bytes (delete temporary there)) in
      if not (disk.writes path)
      then given_up originals written files
      else if disk.renames path
      then renamed
      else given_up originals written there

  abbrev pub concluded : Checked (List String) × JsMap FileBytes → Checked Status × JsMap FileBytes
  concluded (done written, files) = (done (applied written), files)
  concluded (failed message, files) = (failed message, files)

  -- What comes of the preflight.
  abbrev pub carry_out :
      Bool → Checked Preflight → JsMap FileBytes → Checked Status × JsMap FileBytes
  carry_out save (failed message) files = (failed message, files)
  carry_out false (done p) files = (done (preflight_ok (keys p.replacements)), files)
  carry_out true (done p) files = concluded (write_each p.originals p.replacements [] files)

  -- All that is done before the first file is written.
  unfoldable pub prepare : RenamePlan → String → JsMap FileBytes → Checked Preflight
  prepare plan root files = do
    validate_rename_plan disk.sha256 plan
    real ← found "no such directory" (disk.real_path root)
    preflight real files plan.files (record { originals = []; replacements = [] })

  unfoldable pub apply_rename_plan_to_filesystem :
      RenamePlan → String → Bool → JsMap FileBytes → Checked Status × JsMap FileBytes
  apply_rename_plan_to_filesystem plan root save files =
      carry_out save (prepare plan root files) files
