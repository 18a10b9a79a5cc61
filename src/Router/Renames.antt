-- ===== src/Router/Renames.antt =====
-- packages/mcp-server/src/tools/toolRouter.ts: `prepareProjectRenameSymbols`. The message of a
-- refusal and its descriptors are left out, as they are of the refusal itself.
pub mod Members
use emacs_llvm.Base.{
  String, Bool, true, false, Option, none, some, List, [], ◌∷◌, if◌then◌else◌, str_eq,
}
use emacs_llvm.Base.Bytes.{Text, codes}
use emacs_llvm.Base.Json.{Json, null, bool, str, Fields, end, field, at}
use emacs_llvm.Base.Values.{object, fields, nullable, string_of}
use emacs_llvm.Protocol.Errors.{Result, ok, err, throw, ◌>>=◌, ◌>>◌, invalid_argument}
use emacs_llvm.Protocol.Validation.{required_string}
use emacs_llvm.Lisp.Symbols.{
  Language, generic, elisp, clojure, common_lisp, QualificationPolicy, exact,
  preserve_qualification, leaf_only, Descriptor, Refusal, invalid_symbol, unsupported_language,
  unsupported_policy, old_not_renameable, new_not_renameable, identity_unchanged,
  qualification_change, Prepare, refused, prepared,
}
use emacs_llvm.Lisp.Symbols.Rename.{PreparedRename, kind_name, prepare_symbol_rename}
use emacs_llvm.Router.Arguments.{infer_project_rename_language}

abbrev language_text : Language → String
language_text generic = "generic"
language_text elisp = "elisp"
language_text clojure = "clojure"
language_text common_lisp = "common_lisp"

abbrev policy_text : QualificationPolicy → String
policy_text exact = "exact"
policy_text preserve_qualification = "preserve_qualification"
policy_text leaf_only = "leaf_only"

-- `error.code`, where the error has one.
abbrev semantic_code : Refusal → String
semantic_code (old_not_renameable reason) = "E_SYMBOL_NOT_RENAMEABLE"
semantic_code (new_not_renameable reason) = "E_SYMBOL_NOT_RENAMEABLE"
semantic_code identity_unchanged = "E_SYMBOL_IDENTITY_UNCHANGED"
semantic_code qualification_change = "E_SYMBOL_QUALIFICATION_CHANGE"
semantic_code _ = "E_SYMBOL_SEMANTICS"

-- A text that is given and not empty.
abbrev given : Option String → Option String
given none = none
given (some s) = if str_eq s "" then none else some s

module _ (upper : Text → Text) (string_from : Text → String) where
  abbrev text_or_null : Option Text → Json
  text_or_null none = null
  text_or_null (some cs) = str (string_from cs)

  unfoldable pub descriptor_json : Descriptor → Json
  descriptor_json d = object (
      ("raw", str (string_from d.raw))
      ∷ ("language", str (language_text d.language))
      ∷ ("kind", str (kind_name d.kind))
      ∷ ("qualifier", text_or_null d.qualifier)
      ∷ ("separator", text_or_null d.separator)
      ∷ ("name", str (string_from d.name))
      ∷ ("keyword", bool d.keyword)
      ∷ ("renameable", bool d.renameable)
      ∷ ("reason", nullable d.reason)
      ∷ ("normalized_identity", str (string_from d.normalized_identity))
      ∷ [])

  unfoldable pub prepared_json : PreparedRename → Json
  prepared_json r = object (
      ("language", str (language_text r.language))
      ∷ ("qualification_policy", str (policy_text r.qualification_policy))
      ∷ ("old", descriptor_json r.old)
      ∷ ("requested_new", descriptor_json r.requested_new)
      ∷ ("new", descriptor_json r.new)
      ∷ ("effective_new_symbol", str (string_from r.effective_new_symbol))
      ∷ [])

  rename_members : String → String → String → Option String → Prepare PreparedRename → Result Fields
  rename_members old_symbol new_symbol language policy (prepared r) = ok (
      fields (
        ("old_symbol", str old_symbol)
        ∷ ("requested_new_symbol", str new_symbol)
        ∷ ("new_symbol", str (string_from r.effective_new_symbol))
        ∷ ("language", str (language_text r.language))
        ∷ ("qualification_policy", str (policy_text r.qualification_policy))
        ∷ ("symbol_semantics", prepared_json r)
        ∷ []))
  rename_members old_symbol new_symbol language policy (refused reason) =
      throw invalid_argument "The symbols cannot be renamed." (
        some (
          fields (
            ("semantic_code", str (semantic_code reason))
            ∷ ("language", str language)
            ∷ ("qualification_policy", nullable policy)
            ∷ ("old_symbol", str old_symbol)
            ∷ ("requested_new_symbol", str new_symbol)
            ∷ [])))

  unfoldable pub prepare_project_rename_symbols : Fields → Json → Result Fields
  unfolding rename_members
  prepare_project_rename_symbols args observed = do
    old_symbol ← required_string args "old_symbol"
    new_symbol ← required_string args "new_symbol"
    language ← infer_project_rename_language args observed
    let policy = string_of (at "qualification_policy" args)
    rename_members old_symbol new_symbol language policy (
        prepare_symbol_rename upper (codes old_symbol) (codes new_symbol) (some language)
          (given policy))
