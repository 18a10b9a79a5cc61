-- ===== src/Tests/Symbols.antt =====
-- The renames of symbols at concrete ones. Upper case is not asked for in Clojure, so any function
-- stands for it.
use emacs_llvm.Base.{◌≡◌, refl, true, false, none, some}
use emacs_llvm.Base.Bytes.{Text, codes, strip_prefix, text_eq}
use emacs_llvm.Lisp.Scanner.{span}
use emacs_llvm.Lisp.Tokens.{is_numeric}
use emacs_llvm.Lisp.Symbols.{
  Descriptor, clojure, leaf_only, plain_symbol, qualified_symbol, prepared, refused,
  qualification_change, validate_lisp_symbol, split_on, ends_with, language_name, base,
  describe_lisp_symbol,
}
use emacs_llvm.Lisp.Symbols.Rename.{
  PreparedRename, policy_of, effective, checked_rename, prepare_symbol_rename,
}
use emacs_llvm.Lisp.Symbols.Safety.{IsSafe, prepare_symbol_rename-IsSafe}

abbrev same : Text → Text
same cs = cs

abbrev in_ns : Text → Text → Descriptor
in_ns raw name = record {
  raw = raw;
  language = clojure;
  kind = qualified_symbol;
  qualifier = some (codes "ns");
  separator = some (codes "/");
  name = name;
  keyword = false;
  renameable = true;
  reason = none;
  normalized_identity = raw;
}

abbrev bare : Text → Descriptor
bare raw = record {
  raw = raw;
  language = clojure;
  kind = plain_symbol;
  qualifier = none;
  separator = none;
  name = raw;
  keyword = false;
  renameable = true;
  reason = none;
  normalized_identity = raw;
}

abbrev moved : PreparedRename
moved = record {
  language = clojure;
  qualification_policy = leaf_only;
  old = in_ns (codes "ns/foo") (codes "foo");
  requested_new = bare (codes "bar");
  new = in_ns (codes "ns/bar") (codes "bar");
  effective_new_symbol = codes "ns/bar";
}

symbols : Unit {0}
unfolding prepare_symbol_rename checked_rename effective policy_of language_name
    describe_lisp_symbol base validate_lisp_symbol split_on ends_with strip_prefix text_eq
    is_numeric span
symbols = tt

-- The leaf takes on the qualifier of the old symbol.
leaf :
    prepare_symbol_rename same (codes "ns/foo") (codes "bar") (some "clojure") (some "leaf_only")
    ≡ prepared moved
unfolding symbols
leaf = refl

-- The default policy of Clojure keeps the qualification.
dropped :
    prepare_symbol_rename same (codes "ns/foo") (codes "bar") (some "clojure") none
    ≡ refused qualification_change
unfolding symbols
dropped = refl

prepare_symbol_rename-IsSafe_example :
    IsSafe same moved × (describe_lisp_symbol same (codes "ns/foo") clojure ≡ prepared moved.old)
prepare_symbol_rename-IsSafe_example =
    prepare_symbol_rename-IsSafe same (codes "ns/foo") (codes "bar") (some "clojure")
      (some "leaf_only") moved leaf
