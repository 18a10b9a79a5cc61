-- ===== src/Router/Renames/Members.antt =====
-- packages/mcp-server/src/tools/toolRouter.ts: which members the semantics of a rename add to a request.
use emacs_llvm.Base.{String, Option, [], ◌∷◌, ◌≡◌, refl}
use emacs_llvm.Base.Bytes.{Text}
use emacs_llvm.Base.Json.{Json, Fields}
use emacs_llvm.Base.Values.{fields}
use emacs_llvm.Protocol.Errors.{Result, ok, err, OperatorError, ◌>>=◌}
use emacs_llvm.Protocol.Validation.{required_string}
use emacs_llvm.Router.Arguments.{infer_project_rename_language}
use emacs_llvm.Lisp.Symbols.{Prepare, refused, prepared}
use emacs_llvm.Lisp.Symbols.Rename.{PreparedRename}
use emacs_llvm.Router.Renames.{rename_members, prepare_project_rename_symbols}

-- What holds of a result, if there is one.
pub data Yields {T : Type 0} (Q : T → Type 0) : Result T → Type 0 where
  result : (t : T) → Q t → Yields Q (ok t)
  thrown : (e : OperatorError) → Yields Q (err e)

bind-Yields :
    {T U : Type 0} {Q : U → Type 0} (r : Result T) (f : T → Result U)
    → ((t : T) → Yields Q (f t))
    → Yields Q (r >>= f)
bind-Yields (ok t) f h = h t
bind-Yields (err e) f h = thrown e

-- The members have the names that the semantics give, whatever their values.
abbrev pub semantic : Json → Json → Json → Json → Json → Json → Fields
semantic old requested new language policy descriptors = fields (
    ("old_symbol", old)
    ∷ ("requested_new_symbol", requested)
    ∷ ("new_symbol", new)
    ∷ ("language", language)
    ∷ ("qualification_policy", policy)
    ∷ ("symbol_semantics", descriptors)
    ∷ [])

pub record IsSemantic (ms : Fields) : Type 0 where
  pub old : Json
  pub requested : Json
  pub new : Json
  pub language : Json
  pub policy : Json
  pub descriptors : Json
  pub same : ms ≡ semantic old requested new language policy descriptors

module _ (upper : Text → Text) (string_from : Text → String) where
  rename_members-Yields :
      (old_symbol new_symbol language : String) (policy : Option String)
      (r : Prepare PreparedRename)
      → Yields IsSemantic (rename_members upper string_from old_symbol new_symbol language policy r)
  unfolding rename_members
  rename_members-Yields old_symbol new_symbol language policy (prepared r) = result _ (record {
    old = _;
    requested = _;
    new = _;
    language = _;
    policy = _;
    descriptors = _;
    same = refl;
  })
  rename_members-Yields old_symbol new_symbol language policy (refused reason) = thrown _

  pub prepare_project_rename_symbols-Yields :
      (args : Fields) (observed : Json)
      → Yields IsSemantic (prepare_project_rename_symbols upper string_from args observed)
  unfolding prepare_project_rename_symbols
  prepare_project_rename_symbols-Yields args observed =
      bind-Yields (required_string args "old_symbol") _ λ old_symbol.
        bind-Yields (required_string args "new_symbol") _ λ new_symbol.
          bind-Yields (infer_project_rename_language args observed) _
            λ language. rename_members-Yields old_symbol new_symbol language _ _
