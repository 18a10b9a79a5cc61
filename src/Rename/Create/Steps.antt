-- ===== src/Rename/Create/Steps.antt =====
-- What has happened when a plan was created: one fact for each step that might have thrown.
use emacs_llvm.Base.{
  ◌+◌, ◌≤◌, ◌≡◌, refl, sym, ap, ◌∙◌, String, Bool, Option, none, some, List, ◌∷◌, arith,
  Option-cases, inl, inr, Bool-cases, leb, leb→le, length,
}
use emacs_llvm.Base.Bytes.{Text}
use emacs_llvm.Lisp.Symbols.Rename.{PreparedRename, prepare_symbol_rename}
use emacs_llvm.Rename.{RenamePlan, Checked, done, failed, ◌>>=◌, >>=-eq-done}
use emacs_llvm.Rename.Create.{
  SourceFile, Limits, GivenLimits, limits_of, PlanBody, Planning, given_file, pushed, Host,
  normalized_relative, planned_file, plan_file, plan_files, plan_of, body_of, nothing_planned,
  semantics_of, given_root, given_files, planned_within, create_project_rename_plan,
}

module _ {A : Type 0} {a : A} where
  given_root_found :
      (is_absolute : String → Bool) (root : Option String) (rest : String → Checked A)
      → (given_root is_absolute root >>= rest) ≡ done a
      → (root' : String) × (root ≡ some root') × (rest root' ≡ done a)
  given_root_found is_absolute none rest h = cc
  given_root_found is_absolute (some root) rest h = elim (Bool-cases (is_absolute root)) [
    | inl absolute ↦ (root, refl, rw absolute at h)
    | inr relative ↦ cc (rw relative at h)
  ]

  given_files_found :
      (files : Option (List SourceFile)) (rest : List SourceFile → Checked A)
      → (given_files files >>= rest) ≡ done a
      → (sources : List SourceFile) × (files ≡ some sources) × (rest sources ≡ done a)
  given_files_found none rest h = cc
  given_files_found (some sources) rest h = (sources, refl, h)

module _ (host : Host) (limits : Limits) (root : String) (old_symbol new_symbol : Text) where
  abbrev pub plans : List SourceFile → Planning → Checked Planning
  plans = plan_files host limits root old_symbol new_symbol

  -- A file was planned within the limits.
  pub record Plans (path : String) (content : Text) (p q : Planning) : Type 0 where
    pub relative : String
    pub is_relative : normalized_relative host root path ≡ done relative
    pub bytes : q.total_bytes ≡ p.total_bytes + host.byte_length content
    pub edits :
        q.total_edits
        ≡ p.total_edits + length (planned_file host old_symbol new_symbol relative content).edits
    pub bytes_within : q.total_bytes ≤ limits.max_bytes
    pub edits_within : q.total_edits ≤ limits.max_edits
    pub planned :
        q.planned ≡ pushed p.planned (planned_file host old_symbol new_symbol relative content)

  plan_file_found :
      (path : String) (content : Text) (p q : Planning)
      → plan_file host limits root old_symbol new_symbol (path, content) p ≡ done q
      → Plans path content p q
  unfolding plan_file
  plan_file_found path content p q h =
      let (relative, is_relative, _) = >>=-eq-done (normalized_relative host root path) _ h in
      let h' = rw (is_relative, plan_file) at h in
      record {
        relative = relative;
        is_relative = is_relative;
        bytes = ground arith;
        edits = ground arith;
        bytes_within = ground arith;
        edits_within = ground arith;
        planned = ground arith;
      }

  pub plans_found :
      (f : SourceFile) (fs : List SourceFile) (p q : Planning)
      → plans (f ∷ fs) p ≡ done q
      → (path : String) × (content : Text) × (next : Planning) × (given_file f
          ≡ some (path, content))
        × Plans path content p next
        × (plans fs next ≡ done q)
  unfolding plan_files
  plans_found f fs p q h = elim (Option-cases (given_file f)) [
    | inl missing ↦ cc (rw (missing, plan_files) at h)
    | inr ((path, content), found) ↦
        let (next, planned, rest) = >>=-eq-done _ _ (rw (found, plan_files) at h) in
        (path, content, next, found, plan_file_found path content p next planned, rest)
  ]

-- What was there when a plan was made.
module _ (host : Host) (old_symbol new_symbol : Text) where
  pub record Created (limits : Limits) (root : String) (sources : List SourceFile)
      (semantics : PreparedRename) (body : PlanBody) (plan : RenamePlan) : Type 0 where
    pub p : Planning
    pub few : length sources ≤ limits.max_files
    pub planned :
        plans host limits root old_symbol semantics.effective_new_symbol sources nothing_planned
        ≡ done p
    pub is_body : body_of host root old_symbol new_symbol limits semantics p ≡ body
    pub is_plan : plan_of host body ≡ plan

  abbrev finish : Limits → String → PreparedRename → Planning → Checked (PlanBody × RenamePlan)
  finish limits root semantics p =
      let body = body_of host root old_symbol new_symbol limits semantics p in
      done (body, plan_of host body)

  finish_found :
      (limits : Limits) (root : String) (sources : List SourceFile) (semantics : PreparedRename)
      (body : PlanBody) (plan : RenamePlan) (r : Checked Planning)
      → length sources ≤ limits.max_files
      → plans host limits root old_symbol semantics.effective_new_symbol sources nothing_planned ≡ r
      → (r >>= finish limits root semantics) ≡ done (body, plan)
      → Created limits root sources semantics body plan
  finish_found limits root sources semantics body plan (failed message) few planned h = cc
  finish_found limits root sources semantics body plan (done p) few planned h =
      let is_body : body_of host root old_symbol new_symbol limits semantics p ≡ body = cc in
      record {
        p = p;
        few = few;
        planned = planned;
        is_body = is_body;
        is_plan = ap (plan_of host) (sym is_body) ∙ (cc);
      }

  within_found :
      (limits : Limits) (root : String) (sources : List SourceFile) (semantics : PreparedRename)
      (body : PlanBody) (plan : RenamePlan)
      → planned_within host limits old_symbol new_symbol semantics root sources ≡ done (body, plan)
      → Created limits root sources semantics body plan
  unfolding planned_within
  within_found limits root sources semantics body plan h =
      elim (Bool-cases (leb (length sources) limits.max_files)) [
        | inr many ↦ cc (rw (many, planned_within) at h)
        | inl few ↦
            finish_found limits root sources semantics body plan
              (plans host limits root old_symbol semantics.effective_new_symbol sources
                nothing_planned)
              (leb→le _ _ few) refl (rw (few, planned_within) at h)
      ]

  -- The rest of the function, from what the symbols gave.
  abbrev rest_of :
      Option String
      → Option (List SourceFile)
      → Limits
      → Checked PreparedRename
      → Checked (PlanBody × RenamePlan)
  rest_of root files limits r = r >>= λ semantics. given_root host.is_absolute root >>= λ root'.
      given_files files >>= λ files'.
      planned_within host limits old_symbol new_symbol semantics root' files'

  -- All that there has to be for a plan.
  abbrev pub Making :
      Option String → Option (List SourceFile) → Limits → PlanBody → RenamePlan → Type 0
  Making root files limits body plan =
      (root' : String) × (sources : List SourceFile) × (semantics : PreparedRename) × (root
        ≡ some root')
      × (files ≡ some sources)
      × Created limits root' sources semantics body plan

  rest_found :
      (root : Option String) (files : Option (List SourceFile)) (limits : Limits)
      (r : Checked PreparedRename) (body : PlanBody) (plan : RenamePlan)
      → rest_of root files limits r ≡ done (body, plan)
      → Making root files limits body plan
  rest_found root files limits (failed message) body plan h = cc
  rest_found root files limits (done semantics) body plan h =
      let finish' = planned_within host limits old_symbol new_symbol semantics in
      let (root', rooted, h') =
        given_root_found host.is_absolute root (λ r. given_files files >>= finish' r) h in
      let (sources, are_given, h'') = given_files_found files (finish' root') h' in
      (
        root',
        sources,
        semantics,
        rooted,
        are_given,
        within_found limits root' sources semantics body plan h'',
      )

  pub created :
      (root : Option String) (files : Option (List SourceFile)) (language policy : Option String)
      (given : GivenLimits) (body : PlanBody) (plan : RenamePlan)
      → create_project_rename_plan host root files old_symbol new_symbol language policy given
        ≡ done (body, plan)
      → Making root files (limits_of given) body plan
  unfolding create_project_rename_plan
  created root files language policy given body plan h =
      rest_found root files (limits_of given)
        (semantics_of (prepare_symbol_rename host.upper old_symbol new_symbol language policy)) body
        plan h
