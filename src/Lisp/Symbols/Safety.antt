-- ===== src/Lisp/Symbols/Safety.antt =====
-- What a rename that was prepared guarantees.
use emacs_llvm.Base.{
  ◌≡◌, ◌≢◌, refl, sym, ap, subst, ◌∙◌, String, Bool, true, false, ◌||◌, not, Option, none, some,
  eq_iff, arith, Bool-cases, inl, inr,
}
use emacs_llvm.Base.Bytes.{Text, text_eq, text_eq_iff_refl, text_eq→eq}
use emacs_llvm.Lisp.Symbols.{
  Language, generic, elisp, clojure, common_lisp, QualificationPolicy, Descriptor, Refusal, Prepare,
  refused, prepared, language_name, describe_lisp_symbol,
}
use emacs_llvm.Lisp.Symbols.Rename.{
  ◌>>=◌, ◌>>◌, demand, policy_of, is_exact, kind_name, option_eq, comparable, PreparedRename,
  fills_in, reconstruct, effective, keeps, checked_rename, prepare_symbol_rename,
}

bind_inv :
    {T : Type 0} {U : Type 0} (first : Prepare T) (rest : T → Prepare U) {out : U}
    → (first >>= rest) ≡ prepared out
    → (value : T) × (first ≡ prepared value) × (rest value ≡ prepared out)
bind_inv (refused reason) rest h = cc
bind_inv (prepared value) rest h = (value, refl, h)

demand_inv :
    {U : Type 0} (test : Bool) (reason : Refusal) (rest : Prepare U) {out : U}
    → (demand test reason >> rest) ≡ prepared out
    → (test ≡ true) × (rest ≡ prepared out)
demand_inv true reason rest h = (refl, h)
demand_inv false reason rest h = cc

prepared-injective : {T : Type 0} {a b : T} → prepared a ≡ prepared b → a ≡ b
prepared-injective h = cc

kept_parts :
    (l : Language) (upper : Text → Text) (old new : Descriptor)
    → keeps upper l old new ≡ true
    → (kind_name old.kind ≡ kind_name new.kind)
      × (option_eq (comparable upper l old.qualifier) (comparable upper l new.qualifier) ≡ true)
      × (option_eq old.separator new.separator ≡ true)
kept_parts l upper old new h = ground (arith, eq_iff (kind_name old.kind) (kind_name new.kind))

option_eq→eq : (a b : Option Text) → option_eq a b ≡ true → a ≡ b
option_eq→eq none none h = refl
option_eq→eq none (some b) h = cc
option_eq→eq (some a) none h = cc
option_eq→eq (some a) (some b) h = ap some (text_eq→eq a b h)

abbrev pub in_upper : (Text → Text) → Option Text → Option Text
in_upper upper none = none
in_upper upper (some q) = some (upper q)

-- The qualifiers are the same, in Common Lisp up to `upper`.
abbrev pub SameQualifier : (Text → Text) → Language → Option Text → Option Text → Type 0
SameQualifier upper common_lisp a b = in_upper upper a ≡ in_upper upper b
SameQualifier upper _ a b = a ≡ b

same_qualifier :
    (upper : Text → Text) (l : Language) (a b : Option Text)
    → comparable upper l a ≡ comparable upper l b
    → SameQualifier upper l a b
same_qualifier upper generic a b h = h
same_qualifier upper elisp a b h = h
same_qualifier upper clojure a b h = h
same_qualifier upper common_lisp none none h = refl
same_qualifier upper common_lisp none (some b) h = h
same_qualifier upper common_lisp (some a) none h = h
same_qualifier upper common_lisp (some a) (some b) h = h

-- The new symbol has the kind, the separator and the qualifier of the old one.
pub record IsKept (upper : Text → Text) (l : Language) (old new : Descriptor) : Type 0 where
  pub kind : kind_name old.kind ≡ kind_name new.kind
  pub separator : old.separator ≡ new.separator
  pub qualifier : SameQualifier upper l old.qualifier new.qualifier

keeps-IsKept :
    (upper : Text → Text) (l : Language) (old new : Descriptor)
    → keeps upper l old new ≡ true
    → IsKept upper l old new
keeps-IsKept upper l old new h =
    let (kind, qualifier, separator) = kept_parts l upper old new h in
    record {
      kind = kind;
      separator = option_eq→eq old.separator new.separator separator;
      qualifier = same_qualifier upper l old.qualifier new.qualifier (
          option_eq→eq (comparable upper l old.qualifier) (comparable upper l new.qualifier)
            qualifier);
    }

module _ (upper : Text → Text) where
  pub record IsSafe (r : PreparedRename) : Type 0 where
    pub old_renameable : r.old.renameable ≡ true
    pub new_renameable : r.new.renameable ≡ true
    pub described : describe_lisp_symbol upper r.effective_new_symbol r.language ≡ prepared r.new
    pub distinct : r.old.normalized_identity ≢ r.new.normalized_identity
    pub qualified : is_exact r.qualification_policy ≡ false → IsKept upper r.language r.old r.new

  effective_described :
      (l : Language) (p : QualificationPolicy) (new_symbol : Text) (old requested new : Descriptor)
      (symbol : Text)
      → describe_lisp_symbol upper new_symbol l ≡ prepared requested
      → effective upper l p new_symbol old requested ≡ prepared (symbol, new)
      → describe_lisp_symbol upper symbol l ≡ prepared new
  unfolding effective
  effective_described l p new_symbol old requested new symbol d h =
      elim (Bool-cases (fills_in upper p old requested)) [
        | inl fills ↦
            let (e, found, same) =
              bind_inv (describe_lisp_symbol upper (reconstruct old requested.name) l) _
                (rw (fills, effective) at h) in
            cc
        | inr keeps_new ↦ cc (rw (keeps_new, effective) at h)
      ]

  distinct_texts : (a b : Text) → not (text_eq a b) ≡ true → a ≢ b
  distinct_texts a b h e = cc (h, ap (λ c. not (text_eq a c)) (sym e), text_eq_iff_refl a)

  policy_kept : (b c : Bool) → (b || c) ≡ true → b ≡ false → c ≡ true
  policy_kept b c h k = ground arith

  checked_rename-IsSafe :
      (l : Language) (p : QualificationPolicy) (new_symbol : Text) (old requested : Descriptor)
      (r : PreparedRename)
      → describe_lisp_symbol upper new_symbol l ≡ prepared requested
      → checked_rename upper l p new_symbol old requested ≡ prepared r
      → IsSafe r × (r.old ≡ old) × (r.language ≡ l)
  unfolding checked_rename
  checked_rename-IsSafe l p new_symbol old requested r d h =
      let (o, h₁) = demand_inv old.renameable _ _ h in
      let ((symbol, new), e, h₂) = bind_inv (effective upper l p new_symbol old requested) _ h₁ in
      let (n, h₃) = demand_inv new.renameable _ _ h₂ in
      let (i, h₄) =
        demand_inv (not (text_eq old.normalized_identity new.normalized_identity)) _ _ h₃ in
      let (k, h₅) = demand_inv (is_exact p || keeps upper l old new) _ _ h₄ in
      subst (λ q. IsSafe q × (q.old ≡ old) × (q.language ≡ l)) (prepared-injective h₅)
        (
          record {
            old_renameable = o;
            new_renameable = n;
            described = effective_described l p new_symbol old requested new symbol d e;
            distinct = distinct_texts old.normalized_identity new.normalized_identity i;
            qualified = λ e.
                keeps-IsKept upper l old new (policy_kept (is_exact p) (keeps upper l old new) k e);
          },
          refl,
          refl,
        )

  -- A rename that is prepared has an old symbol, described as given, and a new one, described as it
  -- will be written, that may both be renamed; these are different for the reader of the language;
  -- and, unless the policy is the exact one, they have the same name of their kind, the same
  -- separator and the same qualifier, in Common Lisp up to `upper`.
  pub prepare_symbol_rename-IsSafe :
      (old_symbol new_symbol : Text) (language policy : Option String) (r : PreparedRename)
      → prepare_symbol_rename upper old_symbol new_symbol language policy ≡ prepared r
      → IsSafe r × (describe_lisp_symbol upper old_symbol r.language ≡ prepared r.old)
  unfolding prepare_symbol_rename
  prepare_symbol_rename-IsSafe old_symbol new_symbol language policy r h =
      let (l, el, h₁) = bind_inv (language_name language) _ h in
      let (p, ep, h₂) = bind_inv (policy_of l policy) _ h₁ in
      let (old, eo, h₃) = bind_inv (describe_lisp_symbol upper old_symbol l) _ h₂ in
      let (requested, er, h₄) = bind_inv (describe_lisp_symbol upper new_symbol l) _ h₃ in
      let (safe, same, tongue) = checked_rename-IsSafe l p new_symbol old requested r er h₄ in
      (safe, ap (describe_lisp_symbol upper old_symbol) tongue ∙ eo ∙ ap prepared (sym same))
