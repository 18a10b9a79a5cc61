-- ===== src/Rename/Disk/Written.antt =====
-- What a rename that succeeds on the disk has done there.
use emacs_llvm.Base.{
  ◌≡◌, ◌≢◌, refl, sym, ap, ◌∙◌, String, true, Option, none, some, List, [], ◌∷◌, arith, eq_iff,
  eq_refl, Bool-cases, inl, inr, subst, All, str_eq,
}
use emacs_llvm.Base.Bytes.{Text}
use emacs_llvm.Base.Map.{JsMap, get, set, delete, get-set, get-delete, Distinct, set-Distinct}
use emacs_llvm.Rename.{
  PlannedFile, RenamePlan, Checked, done, failed, >>=-eq-done, validate_rename_plan, apply_edits,
}
use emacs_llvm.Rename.Forward.{Fits, forward, replace_each_lem}
use emacs_llvm.Rename.Disk.{
  FileBytes, Disk, Preflight, applied, preflight_file, preflight, write_each, concluded, carry_out,
  prepare, apply_rename_plan_to_filesystem,
}
use emacs_llvm.Rename.Disk.Prepared.{path_of, preflight_file_found}

-- A new content, where there is one.
abbrev replaced : (Text → FileBytes) → Option Text → Option FileBytes → Option FileBytes
replaced encode none old = old
replaced encode (some content) old = some (encode content)

done-injective : {a b : Text} → done a ≡ done b → a ≡ b
done-injective h = cc

module _ (disk : Disk) (originals : JsMap Text) (path : String)
    (apart : (p : String) → disk.temporary p ≢ path) where
  write_each_after :
      (replacements : JsMap Text) (written ws : List String) (files after : JsMap FileBytes)
      → Distinct replacements
      → write_each disk originals replacements written files ≡ (done ws, after)
      → get path after ≡ replaced disk.encode (get path replacements) (get path files)
  unfolding write_each get
  write_each_after [] written ws files after d h =
      ap (λ (r : Checked (List String) × JsMap FileBytes). get path r.1) (sym h)
  write_each_after ((p, c) ∷ rest) written ws files after (new, d) h =
      elim (Bool-cases (disk.writes p)) [
        | inr refused ↦ cc (rw (refused, write_each) at h)
        | inl accepted ↦
            let h' = rw (accepted, write_each) at h in
            elim (Bool-cases (disk.renames p)) [
              | inr refused ↦ cc (rw refused at h')
              | inl renamed ↦
                  let there = set (disk.temporary p) (disk.encode c) files in
                  let files' = set p (disk.encode c) (delete (disk.temporary p) there) in
                  write_each_after rest (p ∷ written) ws files' after d (rw renamed at h')
                  ∙ ground (
                    arith,
                    get-set p path (disk.encode c) (delete (disk.temporary p) there),
                    get-delete (disk.temporary p) path there,
                    get-set (disk.temporary p) path (disk.encode c) files,
                    eq_iff (disk.temporary p) path,
                    eq_iff p path,
                    apart p,
                  )
            ]
      ]

module _ (disk : Disk) (root : String) (files : JsMap FileBytes) where
  abbrev pub IsOutside : String → List PlannedFile → Type 0
  IsOutside path fs = All (λ f. path_of disk root files f ≢ path) fs

  -- No two files of the plan are the same file of the disk.
  abbrev DistinctFiles : List PlannedFile → Type 0
  DistinctFiles [] = Unit
  DistinctFiles (f ∷ fs) = IsOutside (path_of disk root files f) fs × DistinctFiles fs

  -- The file was there, its edits could be made, and this is what came of it.
  abbrev Edited : {A : Type 0} → (Text → A) → (String → Option A) → PlannedFile → Type 0
  Edited stored new f =
      (bytes : FileBytes) × (result : Text) × (get (path_of disk root files f) files ≡ some bytes)
      × (apply_edits disk.sha256 (disk.decode bytes) f ≡ done result)
      × (new (path_of disk root files f) ≡ some (stored result))

  -- The edits of the file lie one behind the other in its text, and each finds its old text there.
  abbrev pub FitsThere : PlannedFile → Type 0
  FitsThere f =
      (bytes : FileBytes)
      → get (path_of disk root files f) files ≡ some bytes
      → Fits 0 (disk.decode bytes) f.edits

  -- The file had the hash of the plan, and now it has its text with the edits made in one pass from
  -- the front.
  abbrev pub IsRewritten : JsMap FileBytes → PlannedFile → Type 0
  IsRewritten after f =
      (bytes : FileBytes) × (get (path_of disk root files f) files ≡ some bytes)
      × (f.sha256 ≡ disk.sha256 (disk.decode bytes))
      × (get (path_of disk root files f) after
          ≡ some (disk.encode (forward 0 (disk.decode bytes) f.edits)))

  apply_edits_fitting :
      (f : PlannedFile) (content result : Text)
      → Fits 0 content f.edits
      → apply_edits disk.sha256 content f ≡ done result
      → (f.sha256 ≡ disk.sha256 content) × (result ≡ forward 0 content f.edits)
  unfolding apply_edits
  apply_edits_fitting f content result fits h =
      elim (Bool-cases (str_eq (disk.sha256 content) f.sha256)) [
        | inl same ↦ (
          ground (arith, eq_iff (disk.sha256 content) f.sha256),
          done-injective (sym (rw same at h) ∙ replace_each_lem content f.edits fits),
        )
        | inr stale ↦ cc (rw stale at h)
      ]

  Edited-IsRewritten :
      (after : JsMap FileBytes) (fs : List PlannedFile)
      → All FitsThere fs
      → All (Edited disk.encode (λ path. get path after)) fs
      → All (IsRewritten after) fs
  Edited-IsRewritten after [] fits h = tt
  Edited-IsRewritten after (f ∷ fs) (fit, fits) ((bytes, result, there, edited, new), h) =
      let (fresh, same) =
        apply_edits_fitting f (disk.decode bytes) result (fit bytes there) edited in
      (
        (bytes, there, fresh, new ∙ ap (λ r. some (disk.encode r)) same),
        Edited-IsRewritten after fs fits h,
      )

  preflight-outside :
      (path : String) (fs : List PlannedFile) (p q : Preflight)
      → preflight disk root files fs p ≡ done q
      → IsOutside path fs
      → get path q.replacements ≡ get path p.replacements
  unfolding preflight
  preflight-outside path [] p q h o =
      let same : p ≡ q = cc in ap (λ (r : Preflight). get path r.replacements) (sym same)
  preflight-outside path (f ∷ fs) p q h (apart, o) =
      let (next, one, rest) = >>=-eq-done (preflight_file disk root files f p) _ h in
      let s = preflight_file_found disk root files f p next one in
      preflight-outside path fs next q rest o
      ∙ ap (λ (r : Preflight). get path r.replacements) s.is_q
      ∙ get-set (path_of disk root files f) path s.result p.replacements
      ∙ ground (arith, eq_iff (path_of disk root files f) path, apart)

  preflight-Edited :
      (fs : List PlannedFile) (p q : Preflight)
      → preflight disk root files fs p ≡ done q
      → DistinctFiles fs
      → All (Edited (λ r. r) (λ path. get path q.replacements)) fs
  unfolding preflight
  preflight-Edited [] p q h d = tt
  preflight-Edited (f ∷ fs) p q h (apart, d) =
      let (next, one, rest) = >>=-eq-done (preflight_file disk root files f p) _ h in
      let s = preflight_file_found disk root files f p next one in
      let path = path_of disk root files f in
      (
        (
          s.bytes,
          s.result,
          s.there,
          s.edited,
          preflight-outside path fs next q rest apart
              ∙ ap (λ (r : Preflight). get path r.replacements) s.is_q
              ∙ get-set path path s.result p.replacements
              ∙ rw (eq_refl path) refl,
        ),
        preflight-Edited fs next q rest d,
      )

  preflight-Distinct :
      (fs : List PlannedFile) (p q : Preflight)
      → preflight disk root files fs p ≡ done q
      → Distinct p.replacements
      → Distinct q.replacements
  unfolding preflight
  preflight-Distinct [] p q h d =
      let same : p ≡ q = cc in subst (λ (r : Preflight). Distinct r.replacements) same d
  preflight-Distinct (f ∷ fs) p q h d =
      let (next, one, rest) = >>=-eq-done (preflight_file disk root files f p) _ h in
      let s = preflight_file_found disk root files f p next one in
      preflight-Distinct fs next q rest (
        subst (λ (r : Preflight). Distinct r.replacements) (sym s.is_q)
          (set-Distinct (path_of disk root files f) s.result p.replacements d))

  -- What was planned for the files is what they have in the end.
  Edited-after :
      (p : Preflight) (after : JsMap FileBytes) (fs : List PlannedFile)
      → ((path : String)
          → ((t : String) → disk.temporary t ≢ path)
          → get path after ≡ replaced disk.encode (get path p.replacements) (get path files))
      → All (λ f. (t : String) → disk.temporary t ≢ path_of disk root files f) fs
      → All (Edited (λ r. r) (λ path. get path p.replacements)) fs
      → All (Edited disk.encode (λ path. get path after)) fs
  Edited-after p after [] written apart h = tt
  Edited-after p after (f ∷ fs) written (t, ts) ((bytes, result, there, edited, new), h) = (
    (
      bytes,
      result,
      there,
      edited,
      written (path_of disk root files f) t
          ∙ ap (λ o. replaced disk.encode o (get (path_of disk root files f) files)) new,
    ),
    Edited-after p after fs written ts h,
  )

module _ (disk : Disk) (root real : String) (is_real : disk.real_path root ≡ some real)
    (files : JsMap FileBytes) where
  abbrev empty : Preflight
  empty = record { originals = []; replacements = [] }

  prepare_found :
      (plan : RenamePlan) (p : Preflight)
      → prepare disk plan root files ≡ done p
      → preflight disk real files plan.files empty ≡ done p
  unfolding prepare
  prepare_found plan p h =
      let (_, valid, _) = >>=-eq-done (validate_rename_plan disk.sha256 plan) _ h in
      rw is_real at (rw (valid, prepare) at h)

  carry_out_written :
      (r : Checked Preflight) (written : List String) (after : JsMap FileBytes)
      → carry_out disk true r files ≡ (done (applied written), after)
      → (p : Preflight) × (r ≡ done p)
        × (write_each disk p.originals p.replacements [] files ≡ (done written, after))
  carry_out_written (failed message) written after h = cc
  carry_out_written (done p) written after h =
      (p, refl, un_concluded (write_each disk p.originals p.replacements [] files) h)
    where
      un_concluded :
          (r : Checked (List String) × JsMap FileBytes)
          → concluded disk r ≡ (done (applied written), after)
          → r ≡ (done written, after)
      un_concluded (done written, fs) k = cc
      un_concluded (failed m, fs) k = cc

  -- A rename that succeeds on the disk, whose files have distinct paths and none of them a
  -- temporary name, and whose edits fit the texts that are there: each file of the plan was there,
  -- with the hash of the plan, and it now has the UTF-8 of its text with the edits made in one pass
  -- from the front; every other file, but those of temporary names, is as it was.
  pub apply_rename_plan_to_filesystem_succeeds :
      (plan : RenamePlan) (written : List String) (after : JsMap FileBytes)
      → DistinctFiles disk real files plan.files
      → All (λ f. (t : String) → disk.temporary t ≢ path_of disk real files f) plan.files
      → All (FitsThere disk real files) plan.files
      → apply_rename_plan_to_filesystem disk plan root true files ≡ (done (applied written), after)
      → All (IsRewritten disk real files after) plan.files
        × ((path : String)
            → ((t : String) → disk.temporary t ≢ path)
            → IsOutside disk real files path plan.files
            → get path after ≡ get path files)
  unfolding apply_rename_plan_to_filesystem get
  apply_rename_plan_to_filesystem_succeeds plan written after distinct apart fits h =
      let (p, prepared, wrote) = carry_out_written (prepare disk plan root files) written after h in
      let found = prepare_found plan p prepared in
      let d = preflight-Distinct disk real files plan.files empty p found tt in
      let each = λ (path : String) (t : (t : String) → disk.temporary t ≢ path).
        write_each_after disk p.originals path t p.replacements [] written files after d wrote in
      (
        Edited-IsRewritten disk real files after plan.files fits (
            Edited-after disk real files p after plan.files each apart
              (preflight-Edited disk real files plan.files empty p found distinct)),
        λ path t outside.
            each path t
            ∙ ap (λ o. replaced disk.encode o (get path files))
                (preflight-outside disk real files path plan.files empty p found outside),
      )
