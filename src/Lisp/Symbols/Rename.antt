-- ===== src/Lisp/Symbols/Rename.antt =====
-- packages/refactor-intelligence/src/symbol-semantics.ts: `prepareSymbolRename`.
use emacs_llvm.Base.{
  String, Bool, true, false, ◌&&◌, ◌||◌, not, Option, none, some, ◌++◌, if◌then◌else◌, str_eq,
}
use emacs_llvm.Base.Bytes.{Text, text_eq}
use emacs_llvm.Lisp.Symbols.{
  Language, generic, elisp, common_lisp, QualificationPolicy, exact, preserve_qualification,
  leaf_only, Kind, plain_symbol, escaped_or_reader_sensitive, keyword_symbol,
  auto_resolved_qualified_keyword, auto_resolved_keyword, qualified_keyword, reader_sensitive,
  invalid_qualified_symbol, qualified_symbol, auto_gensym_symbol, uninterned_symbol,
  invalid_package_symbol, package_internal_symbol, package_external_symbol, Descriptor, Refusal,
  unsupported_policy, old_not_renameable, new_not_renameable, identity_unchanged,
  qualification_change, Prepare, refused, prepared, is_nil, language_name, describe_lisp_symbol,
}

infixl 5 ◌>>=◌
abbrev pub ◌>>=◌ : {T : Type 0} {U : Type 0} → Prepare T → (T → Prepare U) → Prepare U
refused reason >>= rest = refused reason
prepared value >>= rest = rest value

infixl 5 ◌>>◌
abbrev pub ◌>>◌ : {U : Type 0} → Prepare (Unit {0}) → Prepare U → Prepare U
tested >> rest = tested >>= λ u. rest

abbrev pub demand : Bool → Refusal → Prepare (Unit {0})
demand true reason = prepared tt
demand false reason = refused reason

abbrev default_policy : Language → QualificationPolicy
default_policy generic = exact
default_policy elisp = exact
default_policy _ = preserve_qualification

unfoldable pub policy_of : Language → Option String → Prepare QualificationPolicy
policy_of language none = prepared (default_policy language)
policy_of language (some value) =
    if str_eq value "exact"
    then prepared exact
    else if str_eq value "preserve_qualification"
    then prepared preserve_qualification
    else if str_eq value "leaf_only"
    then prepared leaf_only
    else refused unsupported_policy

abbrev pub kind_name : Kind → String
kind_name plain_symbol = "plain_symbol"
kind_name escaped_or_reader_sensitive = "escaped_or_reader_sensitive"
kind_name keyword_symbol = "keyword"
kind_name auto_resolved_qualified_keyword = "auto_resolved_qualified_keyword"
kind_name auto_resolved_keyword = "auto_resolved_keyword"
kind_name qualified_keyword = "qualified_keyword"
kind_name reader_sensitive = "reader_sensitive"
kind_name invalid_qualified_symbol = "invalid_qualified_symbol"
kind_name qualified_symbol = "qualified_symbol"
kind_name auto_gensym_symbol = "auto_gensym_symbol"
kind_name uninterned_symbol = "uninterned_symbol"
kind_name invalid_package_symbol = "invalid_package_symbol"
kind_name package_internal_symbol = "package_internal_symbol"
kind_name package_external_symbol = "package_external_symbol"

-- `===` of texts that may be `null`.
abbrev pub option_eq : Option Text → Option Text → Bool
option_eq none none = true
option_eq none (some b) = false
option_eq (some a) none = false
option_eq (some a) (some b) = text_eq a b

-- A text that is neither `null` nor empty.
abbrev pub given : Option Text → Option Text
given none = none
given (some a) = if is_nil a then none else some a

abbrev joined : Option Text → Option Text → Text → Text
joined (some q) (some s) leaf = q ++ s ++ leaf
joined _ _ leaf = leaf

abbrev pub reconstruct : Descriptor → Text → Text
reconstruct d leaf = joined (given d.qualifier) (given d.separator) leaf

abbrev is_some : Option Text → Bool
is_some none = false
is_some (some a) = true

abbrev is_leaf_only : QualificationPolicy → Bool
is_leaf_only leaf_only = true
is_leaf_only _ = false

abbrev pub is_exact : QualificationPolicy → Bool
is_exact exact = true
is_exact _ = false

pub record PreparedRename : Type 0 where
  pub language : Language
  pub qualification_policy : QualificationPolicy
  pub old : Descriptor
  pub requested_new : Descriptor
  pub new : Descriptor
  pub effective_new_symbol : Text

module _ (upper : Text → Text) where
  abbrev pub comparable : Language → Option Text → Option Text
  comparable common_lisp (some q) = some (upper q)
  comparable _ q = q

  -- Whether the policy puts the old symbol's qualifier in front of a bare leaf.
  abbrev pub fills_in : QualificationPolicy → Descriptor → Descriptor → Bool
  fills_in policy old requested =
      is_leaf_only policy
      && is_some (given old.qualifier)
      && not (is_some requested.qualifier)
      && requested.renameable

  unfoldable pub effective :
      Language → QualificationPolicy → Text → Descriptor → Descriptor → Prepare (Text × Descriptor)
  effective language policy new_symbol old requested =
      if fills_in policy old requested
      then (do
        d ← describe_lisp_symbol upper (reconstruct old requested.name) language
        prepared (reconstruct old requested.name, d))
      else prepared (new_symbol, requested)

  abbrev pub keeps : Language → Descriptor → Descriptor → Bool
  keeps language old new =
      str_eq (kind_name old.kind) (kind_name new.kind)
      && option_eq (comparable language old.qualifier) (comparable language new.qualifier)
      && option_eq old.separator new.separator

  unfoldable pub checked_rename :
      Language → QualificationPolicy → Text → Descriptor → Descriptor → Prepare PreparedRename
  checked_rename language policy new_symbol old requested = do
    demand old.renameable (old_not_renameable old.reason)
    (symbol, new) ← effective language policy new_symbol old requested
    demand new.renameable (new_not_renameable new.reason)
    demand (not (text_eq old.normalized_identity new.normalized_identity)) identity_unchanged
    demand (is_exact policy || keeps language old new) qualification_change
    prepared (record {
      language = language;
      qualification_policy = policy;
      old = old;
      requested_new = requested;
      new = new;
      effective_new_symbol = symbol;
    })

  unfoldable pub prepare_symbol_rename :
      Text → Text → Option String → Option String → Prepare PreparedRename
  prepare_symbol_rename old_symbol new_symbol language policy = do
    l ← language_name language
    p ← policy_of l policy
    old ← describe_lisp_symbol upper old_symbol l
    requested ← describe_lisp_symbol upper new_symbol l
    checked_rename l p new_symbol old requested
