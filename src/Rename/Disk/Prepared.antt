-- ===== src/Rename/Disk/Prepared.antt =====
-- What the preflight of a rename on the disk finds and keeps.
use emacs_llvm.Base.{
  ◌≡◌, refl, ◌∙◌, String, some, List, [], ◌∷◌, arith, eq_iff, eq_refl, Bool-cases, Option-cases,
  inl, inr, str_eq, subst, not, ◌||◌,
}
use emacs_llvm.Base.Bytes.{Text}
use emacs_llvm.Base.Map.{JsMap, get, set, get-set}
use emacs_llvm.Rename.{
  PlannedFile, RenamePlan, Checked, done, failed, ◌>>=◌, >>=-eq-done, require, validate_rename_plan,
  apply_edits,
}
use emacs_llvm.Policy.{goes_up}
use emacs_llvm.Rename.Disk.{FileBytes, Disk, Preflight, preflight_file, preflight, prepare}

-- What is kept to be written back is what could be read there.
abbrev pub Faithful : Disk → JsMap Text → JsMap FileBytes → Type 0
Faithful disk originals files =
    (path : String) (content : Text)
    → get path originals ≡ some content
    → (bytes : FileBytes) × (get path files ≡ some bytes) × (content ≡ disk.decode bytes)

abbrev pub IsKept : JsMap Text → String → Type 0
IsKept originals w = (content : Text) × (get w originals ≡ some content)

-- Every file that was written was kept.
abbrev pub Kept : JsMap Text → List String → Type 0
Kept originals [] = Unit
Kept originals (w ∷ ws) = IsKept originals w × Kept originals ws

-- Every file that is to be written was kept.
abbrev pub KeptKeys : JsMap Text → JsMap Text → Type 0
KeptKeys originals [] = Unit
KeptKeys originals ((w, c) ∷ rest) = IsKept originals w × KeptKeys originals rest

IsKept-set :
    (path w : String) (content : Text) (originals : JsMap Text)
    → IsKept originals w
    → IsKept (set path content originals) w
IsKept-set path w content originals (c, e) = elim (Bool-cases (str_eq path w)) [
  | inl same ↦ (content, get-set path w content originals ∙ rw same refl)
  | inr other ↦ (c, get-set path w content originals ∙ rw other e)
]

KeptKeys-set :
    (path : String) (content : Text) (originals replacements : JsMap Text)
    → KeptKeys originals replacements
    → KeptKeys (set path content originals) replacements
KeptKeys-set path content originals [] k = tt
KeptKeys-set path content originals ((w, c) ∷ rest) (k, ks) =
    (IsKept-set path w content originals k, KeptKeys-set path content originals rest ks)

KeptKeys-add :
    (path : String) (result : Text) (originals replacements : JsMap Text)
    → IsKept originals path
    → KeptKeys originals replacements
    → KeptKeys originals (set path result replacements)
unfolding set
KeptKeys-add path result originals [] k ks = (k, tt)
KeptKeys-add path result originals ((w, c) ∷ rest) k (l, ks) = elim (Bool-cases (str_eq w path)) [
  | inl same ↦ rw same (k, ks)
  | inr other ↦ rw other (l, KeptKeys-add path result originals rest k ks)
]

-- The preflight keeps what is there, of every file that it makes a new content for.
pub record Prepared (disk : Disk) (files : JsMap FileBytes) (p : Preflight) : Type 0 where
  pub faithful : Faithful disk p.originals files
  pub kept : KeptKeys p.originals p.replacements

module _ (disk : Disk) (root : String) (files : JsMap FileBytes) where
  -- The path of a file of the plan.
  abbrev pub path_of : PlannedFile → String
  path_of f = disk.resolve_in root f.path

  -- What the preflight of one file that does not throw has found and made.
  pub record PreparesFile (f : PlannedFile) (p q : Preflight) : Type 0 where
    pub bytes : FileBytes
    pub result : Text
    pub there : get (path_of f) files ≡ some bytes
    pub edited : apply_edits disk.sha256 (disk.decode bytes) f ≡ done result
    pub is_q : q ≡ record {
      originals = set (path_of f) (disk.decode bytes) p.originals;
      replacements = set (path_of f) result p.replacements;
    }

  pub preflight_file_found :
      (f : PlannedFile) (p q : Preflight)
      → preflight_file disk root files f p ≡ done q
      → PreparesFile f p q
  unfolding preflight_file
  preflight_file_found f p q h =
      let (_, inside, _) =
        >>=-eq-done
          (require
            (not (
              goes_up (disk.relative_to root (path_of f))
              || disk.is_absolute (disk.relative_to root (path_of f))))
            "file escaped project root")
          _ h in
      let h1 = rw (inside, preflight_file) at h in
      let (_, regular, _) =
        >>=-eq-done (require (not (disk.is_link (path_of f))) "symbolic link is not allowed") _
          h1 in
      let h2 = rw regular at h1 in
      elim (Option-cases (get (path_of f) files)) [
        | inl missing ↦ cc (rw missing at h2)
        | inr (bytes, there) ↦
            by_edits bytes there (apply_edits disk.sha256 (disk.decode bytes) f) refl
              (rw there at h2)
      ]
    where
      by_edits :
          (bytes : FileBytes)
          → get (path_of f) files ≡ some bytes
          → (r : Checked Text) → apply_edits disk.sha256 (disk.decode bytes) f ≡ r
          → (r >>= λ result. done (record {
            originals = set (path_of f) (disk.decode bytes) p.originals;
            replacements = set (path_of f) result p.replacements;
          }))
            ≡ done q
          → PreparesFile f p q
      by_edits bytes there (failed message) e k = cc
      by_edits bytes there (done result) e k = record {
        bytes = bytes;
        result = result;
        there = there;
        edited = e;
        is_q = cc;
      }

  preflight_file-Prepared :
      (f : PlannedFile) (p q : Preflight)
      → preflight_file disk root files f p ≡ done q
      → Prepared disk files p
      → Prepared disk files q
  preflight_file-Prepared f p q h ok =
      let s = preflight_file_found f p q h in
      let path = path_of f in
      let content = disk.decode s.bytes in
      let result = s.result in
      rw s.is_q (record {
        faithful = λ w c e. elim (Bool-cases (str_eq path w)) [
          | inl same ↦ (
            s.bytes,
            ground (arith, eq_iff path w, s.there),
            ground (arith, get-set path w content p.originals),
          )
          | inr other ↦ ok.faithful w c (ground (arith, get-set path w content p.originals))
        ];
        kept =
            KeptKeys-add path result (set path content p.originals) p.replacements
              (content, get-set path path content p.originals ∙ rw (eq_refl path) refl)
              (KeptKeys-set path content p.originals p.replacements ok.kept);
      })

  preflight-Prepared :
      (fs : List PlannedFile) (p q : Preflight)
      → preflight disk root files fs p ≡ done q
      → Prepared disk files p
      → Prepared disk files q
  unfolding preflight
  preflight-Prepared [] p q h ok = let same : p ≡ q = cc in subst (Prepared disk files) same ok
  preflight-Prepared (f ∷ fs) p q h ok =
      let (next, one, rest) = >>=-eq-done (preflight_file disk root files f p) _ h in
      preflight-Prepared fs next q rest (preflight_file-Prepared f p next one ok)

module _ (disk : Disk) (root : String) (files : JsMap FileBytes) where
  -- Nothing has been kept yet.
  nothing-Prepared : Prepared disk files (record { originals = []; replacements = [] })
  unfolding get
  nothing-Prepared = record { faithful = λ path content e. cc; kept = tt }

  pub prepare-Prepared :
      (plan : RenamePlan) (p : Preflight)
      → prepare disk plan root files ≡ done p
      → Prepared disk files p
  unfolding prepare
  prepare-Prepared plan p h =
      let (_, valid, _) = >>=-eq-done (validate_rename_plan disk.sha256 plan) _ h in
      let h1 = rw (valid, prepare) at h in
      elim (Option-cases (disk.real_path root)) [
        | inl missing ↦ cc (rw missing at h1)
        | inr (real, there) ↦
            preflight-Prepared disk real files plan.files
              (record { originals = []; replacements = [] }) p (rw there at h1) nothing-Prepared
      ]
