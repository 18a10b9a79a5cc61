-- ===== src/Rename/Disk/Unwritten.antt =====
-- What a rename that fails on the disk leaves there.
use emacs_llvm.Base.{
  ◌≡◌, ◌≢◌, refl, sym, ap, ◌∙◌, String, Bool, true, false, Option, none, some, List, [], ◌∷◌, arith,
  eq_iff, Bool-cases, inl, inr, str_eq, any,
}
use emacs_llvm.Base.Bytes.{Text}
use emacs_llvm.Base.Map.{JsMap, get, set, delete, get-set, get-delete}
use emacs_llvm.Rename.{RenamePlan, Checked, done, failed}
use emacs_llvm.Rename.Disk.{
  FileBytes, Disk, Preflight, write_back, restore, write_each, concluded, carry_out, prepare,
  apply_rename_plan_to_filesystem,
}
use emacs_llvm.Rename.Disk.Prepared.{Faithful, Kept, KeptKeys, Prepared, prepare-Prepared}

abbrev is_among : String → List String → Bool
is_among path = any (λ p. str_eq p path)

-- What the file has is valid UTF-8, so that it is written as it was read.
abbrev pub IsUtf8 : Disk → Option FileBytes → Type 0
IsUtf8 disk none = Unit
IsUtf8 disk (some bytes) = disk.encode (disk.decode bytes) ≡ bytes

module _ (disk : Disk) (before : JsMap FileBytes) (originals : JsMap Text)
    (faithful : Faithful disk originals before)
    (restores : (path : String) → disk.restores path ≡ true) (path : String)
    (utf8 : IsUtf8 disk (get path before)) where
  -- A file that was kept is written back as it was.
  kept_before :
      (content : Text)
      → get path originals ≡ some content
      → some (disk.encode content) ≡ get path before
  kept_before content kept =
      let (bytes, there, read) = faithful path content kept in
      ap some (ap disk.encode read ∙ rw there at utf8) ∙ sym there

  -- The file is as it was, unless it is one of those that were written.
  abbrev AsBefore : List String → JsMap FileBytes → Type 0
  AsBefore written files = is_among path written ≡ false → get path files ≡ get path before

  restore_before :
      (written : List String) (files : JsMap FileBytes)
      → Kept originals written
      → AsBefore written files
      → get path (restore disk originals written files) ≡ get path before
  unfolding restore write_back
  restore_before [] files k same = same refl
  restore_before (w ∷ ws) files ((content, e), k) same =
      restore_before ws (write_back disk originals w files) k (λ unlisted.
        rw (e, write_back, restores w)
          (elim (Bool-cases (str_eq w path)) [
            | inl here ↦
                let at_path : w ≡ path = ground (arith, eq_iff w path) in
                get-set w path (disk.encode content) files
                ∙ rw here (kept_before content (ap (λ p. get p originals) (sym at_path) ∙ e))
            | inr elsewhere ↦
                get-set w path (disk.encode content) files
                ∙ rw elsewhere (same (rw elsewhere unlisted))
          ]))

  write_each_before :
      (replacements : JsMap Text) (written : List String) (files after : JsMap FileBytes)
      (message : String)
      → ((p : String) → disk.temporary p ≢ path)
      → KeptKeys originals replacements
      → Kept originals written
      → AsBefore written files
      → write_each disk originals replacements written files ≡ (failed message, after)
      → get path after ≡ get path before
  unfolding write_each
  write_each_before [] written files after message apart kept k same h = cc
  write_each_before ((p, c) ∷ rest) written files after message apart (kept, more) k same h =
      elim (Bool-cases (disk.writes p)) [
        | inr refused ↦
            let end : restore disk originals written files ≡ after =
              ap (λ (r : Checked (List String) × JsMap FileBytes). r.1)
                (rw (refused, write_each) at h) in
            sym (ap (get path) end) ∙ restore_before written files k same
        | inl accepted ↦
            let h' = rw (accepted, write_each) at h in
            elim (Bool-cases (disk.renames p)) [
              | inr refused ↦
                  let end : restore disk originals written
                        (set (disk.temporary p) (disk.encode c) files)
                      ≡ after =
                    ap (λ (r : Checked (List String) × JsMap FileBytes). r.1) (rw refused at h') in
                  sym (ap (get path) end)
                  ∙ restore_before written (set (disk.temporary p) (disk.encode c) files) k
                      (λ unlisted. ground (
                        arith,
                        get-set (disk.temporary p) path (disk.encode c) files,
                        eq_iff (disk.temporary p) path,
                        apart p,
                        same,
                      ))
              | inl renamed ↦
                  let there = set (disk.temporary p) (disk.encode c) files in
                  write_each_before rest (p ∷ written)
                    (set p (disk.encode c) (delete (disk.temporary p) there)) after message apart
                    more (kept, k)
                    (λ unlisted. ground (
                      arith,
                      get-set p path (disk.encode c) (delete (disk.temporary p) there),
                      get-delete (disk.temporary p) path there,
                      get-set (disk.temporary p) path (disk.encode c) files,
                      eq_iff (disk.temporary p) path,
                      apart p,
                      same,
                    ))
                    (rw renamed at h')
            ]
      ]

module _ (disk : Disk) (root : String) (files : JsMap FileBytes) where
  carry_out_before :
      (save : Bool) (r : Checked Preflight) (after : JsMap FileBytes) (message path : String)
      → ((p : Preflight) → r ≡ done p → Prepared disk files p)
      → ((path : String) → disk.restores path ≡ true)
      → ((p : String) → disk.temporary p ≢ path)
      → IsUtf8 disk (get path files)
      → carry_out disk save r files ≡ (failed message, after)
      → get path after ≡ get path files
  carry_out_before save (failed x) after message path ok restores apart utf8 h = ap (get path) (cc)
  carry_out_before false (done p) after message path ok restores apart utf8 h = cc
  carry_out_before true (done p) after message path ok restores apart utf8 h =
      let kept = ok p refl in
      write_each_before disk files p.originals kept.faithful restores path utf8 p.replacements []
        files after message apart kept.kept tt (λ unlisted. refl)
        (un_concluded (write_each disk p.originals p.replacements [] files) h)
    where
      un_concluded :
          (r : Checked (List String) × JsMap FileBytes)
          → concluded disk r ≡ (failed message, after)
          → r ≡ (failed message, after)
      un_concluded (done written, fs) k = cc
      un_concluded (failed m, fs) k = cc

  -- A rename that fails on the disk, at whatever file and whatever step, leaves every file as it
  -- was, byte for byte, that is valid UTF-8 or absent, but those of temporary names, if the files
  -- that were written can be written back.
  pub apply_rename_plan_to_filesystem_failed :
      (plan : RenamePlan) (save : Bool) (after : JsMap FileBytes) (message path : String)
      → ((p : String) → disk.restores p ≡ true)
      → ((p : String) → disk.temporary p ≢ path)
      → IsUtf8 disk (get path files)
      → apply_rename_plan_to_filesystem disk plan root save files ≡ (failed message, after)
      → get path after ≡ get path files
  unfolding apply_rename_plan_to_filesystem
  apply_rename_plan_to_filesystem_failed plan save after message path restores apart utf8 h =
      carry_out_before save (prepare disk plan root files) after message path
        (prepare-Prepared disk root files plan) restores apart utf8 h
