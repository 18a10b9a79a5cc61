-- ===== src/Lisp/Symbols.antt =====
-- packages/refactor-intelligence/src/symbol-semantics.ts, with `validateLispSymbol` of scanner.ts:
-- what a symbol is in its language, and whether a rename of it is safe. `upper` is `toUpperCase` of
-- the runtime.
pub mod Rename
pub mod Safety
use emacs_llvm.Base.{
  ℕ, String, Bool, true, false, ◌&&◌, ◌||◌, not, Option, none, some, List, [], ◌∷◌, ◌++◌, any,
  if◌then◌else◌, leb, ◌==◌, length, str_eq,
}
use emacs_llvm.Base.Bytes.{Text, codes, strip_prefix, text_eq}
use emacs_llvm.Lisp.Scanner.{is_white, is_delimiter}
use emacs_llvm.Lisp.Tokens.{is_numeric}

pub data Language : Type 0 where
  generic elisp clojure common_lisp : Language

pub data QualificationPolicy : Type 0 where
  exact preserve_qualification leaf_only : QualificationPolicy

pub data Kind : Type 0 where
  plain_symbol escaped_or_reader_sensitive keyword_symbol auto_resolved_qualified_keyword : Kind
  auto_resolved_keyword qualified_keyword reader_sensitive invalid_qualified_symbol : Kind
  qualified_symbol auto_gensym_symbol uninterned_symbol invalid_package_symbol : Kind
  package_internal_symbol package_external_symbol : Kind

pub record Descriptor : Type 0 where
  pub raw : Text
  pub language : Language
  pub kind : Kind
  pub qualifier : Option Text
  pub separator : Option Text
  pub name : Text
  pub keyword : Bool
  pub renameable : Bool
  pub reason : Option String
  pub normalized_identity : Text

-- What a rename may be refused for.
pub data Refusal : Type 0 where
  invalid_symbol unsupported_language unsupported_policy : Refusal
  old_not_renameable new_not_renameable : Option String → Refusal
  identity_unchanged qualification_change : Refusal

pub data Prepare {ℓ} (A : Type ℓ) : Type ℓ where
  refused : Refusal → Prepare A
  prepared : A → Prepare A

abbrev pub is_nil : Text → Bool
is_nil [] = true
is_nil (c ∷ cs) = false

-- `validateLispSymbol`
unfoldable pub validate_lisp_symbol : Text → Bool
validate_lisp_symbol cs =
    not (is_nil cs)
    && leb (length cs) 256
    && not (any is_white cs)
    && not (any is_delimiter cs)
    && not (is_numeric cs)

-- `value.indexOf(separator)`, with the texts before and behind.
unfoldable pub split_on : Text → Text → Option (Text × Text)
split_on sep [] = none
split_on sep (c ∷ cs) = elim (strip_prefix sep (c ∷ cs)) [
  | some rest ↦ some ([], rest)
  | none ↦ elim (split_on sep cs) [ none ↦ none | some (a, b) ↦ some (c ∷ a, b) ]
]

abbrev pub includes : Text → Text → Bool
includes cs sep = elim (split_on sep cs) [ none ↦ false | some p ↦ true ]

unfoldable pub ends_with : ℕ → Text → Bool
ends_with c [] = false
ends_with c (d ∷ []) = c == d
ends_with c (d ∷ e ∷ cs) = ends_with c (e ∷ cs)

unfoldable pub language_name : Option String → Prepare Language
language_name none = prepared generic
language_name (some value) =
    if str_eq value "generic"
    then prepared generic
    else if str_eq value "elisp"
    then prepared elisp
    else if str_eq value "clojure"
    then prepared clojure
    else if str_eq value "common_lisp"
    then prepared common_lisp
    else if str_eq value "common-lisp"
    then prepared common_lisp
    else refused unsupported_language

module _ (upper : Text → Text) where
  identity : Language → Text → Text
  identity common_lisp raw = upper raw
  identity _ raw = raw

  unfoldable pub base : Text → Language → Descriptor
  unfolding identity
  base raw language = record {
    raw = raw;
    language = language;
    kind = plain_symbol;
    qualifier = none;
    separator = none;
    name = raw;
    keyword = false;
    renameable = true;
    reason = none;
    normalized_identity = identity language raw;
  }

  -- A symbol of a kind that is not renamed.
  abbrev pub fixed : Text → Language → Kind → String → Descriptor
  fixed raw language kind reason = record (base raw language) {
    kind = kind;
    renameable = false;
    reason = some reason;
  }

  abbrev migration : String
  migration = "keyword_rename_requires_explicit_data_migration"

  abbrev plain_keyword : Text → Language → Text → Descriptor
  plain_keyword raw language name = record (fixed raw language keyword_symbol migration) {
    name = name;
    keyword = true;
  }

  -- A Clojure keyword, by the parts of its body.
  abbrev clojure_keyword : Text → Text → Kind → Kind → String → Option (Text × Text) → Descriptor
  clojure_keyword raw body whole parted reason none = record (fixed raw clojure whole reason) {
    name = body;
    keyword = true;
  }
  clojure_keyword raw body whole parted reason (some (a, b)) =
      record (fixed raw clojure parted reason) {
        qualifier = some a;
        separator = some (codes "/");
        name = b;
        keyword = true;
      }

  clojure_symbol : Text → Option (Text × Text) → Descriptor
  clojure_symbol raw none =
      if ends_with b'#' raw
      then fixed raw clojure auto_gensym_symbol "auto_gensym_is_reader_scoped"
      else base raw clojure
  clojure_symbol raw (some (a, b)) =
      if is_nil a || includes b (codes "/") || is_nil b
      then fixed raw clojure invalid_qualified_symbol "invalid_clojure_namespace_qualification"
      else record (base raw clojure) {
        kind = qualified_symbol;
        qualifier = some a;
        separator = some (codes "/");
        name = b;
      }

  -- `raw !== "/" && raw.includes("/")`
  abbrev namespace_parts : Text → Option (Text × Text)
  namespace_parts raw = if text_eq raw (codes "/") then none else split_on (codes "/") raw

  describe_clojure : Text → Descriptor
  unfolding clojure_symbol
  describe_clojure raw = elim (strip_prefix (codes "::") raw) [
    | some body ↦
        clojure_keyword raw body auto_resolved_keyword auto_resolved_qualified_keyword
          "auto_resolved_keyword_depends_on_namespace_context" (split_on (codes "/") body)
    | none ↦ elim (strip_prefix (codes ":") raw) [
      | some body ↦
          clojure_keyword raw body keyword_symbol qualified_keyword migration
            (split_on (codes "/") body)
      | none ↦ elim (strip_prefix (codes "#") raw) [
        | some rest ↦
            fixed raw clojure reader_sensitive "reader_prefixed_symbol_requires_clojure_reader"
        | none ↦ clojure_symbol raw (namespace_parts raw)
      ]
    ]
  ]

  abbrev invalid_package : Text → Descriptor
  invalid_package raw =
      fixed raw common_lisp invalid_package_symbol "invalid_common_lisp_package_qualification"

  abbrev in_package : Text → Kind → Text → Text → Text → Descriptor
  in_package raw kind a sep b = record (base raw common_lisp) {
    kind = kind;
    qualifier = some a;
    separator = some sep;
    name = b;
    normalized_identity = upper a ++ sep ++ upper b;
  }

  external_symbol : Text → Option (Text × Text) → Descriptor
  external_symbol raw none = base raw common_lisp
  external_symbol raw (some (a, b)) =
      if is_nil a || includes b (codes ":") || is_nil b
      then invalid_package raw
      else in_package raw package_external_symbol a (codes ":") b

  -- A second `::` begins behind the first colon of the one that was found.
  internal_symbol : Text → Option (Text × Text) → Descriptor
  unfolding external_symbol
  internal_symbol raw none = external_symbol raw (split_on (codes ":") raw)
  internal_symbol raw (some (a, b)) =
      if is_nil a || includes (codes ":" ++ b) (codes "::") || is_nil b || includes b (codes ":")
      then invalid_package raw
      else in_package raw package_internal_symbol a (codes "::") b

  describe_common_lisp : Text → Descriptor
  unfolding internal_symbol
  describe_common_lisp raw = elim (strip_prefix (codes "#:") raw) [
    | some name ↦
        record (fixed raw common_lisp uninterned_symbol
          "uninterned_symbol_has_no_stable_project_identity") { name = name }
    | none ↦ elim (strip_prefix (codes ":") raw) [
      | some name ↦ plain_keyword raw common_lisp name
      | none ↦ internal_symbol raw (split_on (codes "::") raw)
    ]
  ]

  abbrev describe_simple : Text → Language → Descriptor
  describe_simple raw language = elim (strip_prefix (codes ":") raw) [
    | some name ↦ plain_keyword raw language name
    | none ↦ base raw language
  ]

  describe_valid : Text → Language → Descriptor
  unfolding describe_clojure describe_common_lisp
  describe_valid raw generic = describe_simple raw generic
  describe_valid raw elisp = describe_simple raw elisp
  describe_valid raw clojure = describe_clojure raw
  describe_valid raw common_lisp = describe_common_lisp raw

  unfoldable pub describe_lisp_symbol : Text → Language → Prepare Descriptor
  unfolding describe_valid
  describe_lisp_symbol raw language =
      if validate_lisp_symbol raw
      then (if includes raw (codes "|") || includes raw (codes "\\")
          then prepared (
              fixed raw language escaped_or_reader_sensitive
                "escaped_symbol_requires_reader_aware_backend")
          else prepared (describe_valid raw language))
      else refused invalid_symbol
