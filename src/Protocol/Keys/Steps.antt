-- ===== src/Protocol/Keys/Steps.antt =====
-- Which arrays of steps are accepted.
use emacs_llvm.Base.{◌≡◌, ◌≢◌, ◌↔◌, refl, sym, ap, subst, ◌∙◌, String, arith}
use emacs_llvm.Base.Json.{Json, Items, nil, cons, arr, obj, undefined, null, bool, num, str}
use emacs_llvm.Protocol.Errors.{ok}
use emacs_llvm.Protocol.Errors.Laws.{>>=-eq-ok}
use emacs_llvm.Protocol.Keys.{validate_step, validate_each, validate_internal_key_steps}

ok-eq : {T : Type 0} {a b : T} → ok a ≡ ok b → a ≡ b
ok-eq h = cc

arr-eq : {xs ys : Items} → arr xs ≡ arr ys → xs ≡ ys
arr-eq h = cc

module _ (string_of : Json → String) where
  validate_step_same : (x y : Json) → validate_step string_of x ≡ ok y → x ≡ y
  unfolding validate_step
  validate_step_same x y h = ground arith

  abbrev AllSteps : Items → Type 0
  AllSteps nil = Unit
  AllSteps (cons x xs) = (validate_step string_of x ≡ ok x) × AllSteps xs

  validate_each_iff :
      (xs ys : Items) → (validate_each string_of xs ≡ ok ys) ↔ ((ys ≡ xs) × AllSteps xs)
  unfolding validate_each
  validate_each_iff nil ys = (λ h. (sym (ok-eq h), tt), λ h. ap ok (sym h.0))
  validate_each_iff (cons x xs) ys = (
    λ h.
        let (y, first, h₁) = >>=-eq-ok (validate_step string_of x) _ h in
        let (zs, rest, h₂) = >>=-eq-ok (validate_each string_of xs) _ h₁ in
        let same = validate_step_same x y first in
        let (e, all) = (validate_each_iff xs zs).0 rest in
        (
          sym (ok-eq h₂) ∙ ap (λ z. cons z zs) (sym same) ∙ ap (cons x) e,
          (first ∙ ap ok (sym same), all),
        ),
    λ (e, (first, all)). rw (first, (validate_each_iff xs xs).1 (refl, all)) (ap ok (sym e)),
  )

  kept_steps : {xs ys : Items} → xs ≡ ys → AllSteps xs → AllSteps ys
  kept_steps e h = subst AllSteps e h

  -- A value is accepted as the steps of a key sequence exactly if it is an array, not empty, and
  -- each of its members is accepted as a step; the steps are then its members, unchanged.
  validate_internal_key_steps_iff :
      (value : Json) (steps : Items)
      → (validate_internal_key_steps string_of value ≡ ok steps)
        ↔ ((value ≡ arr steps) × (steps ≢ nil) × AllSteps steps)
  unfolding validate_internal_key_steps
  validate_internal_key_steps_iff undefined steps = (λ h. cc, λ (e, full, all). cc)
  validate_internal_key_steps_iff null steps = (λ h. cc, λ (e, full, all). cc)
  validate_internal_key_steps_iff (bool b) steps = (λ h. cc, λ (e, full, all). cc)
  validate_internal_key_steps_iff (num n) steps = (λ h. cc, λ (e, full, all). cc)
  validate_internal_key_steps_iff (str t) steps = (λ h. cc, λ (e, full, all). cc)
  validate_internal_key_steps_iff (obj fs) steps = (λ h. cc, λ (e, full, all). cc)
  validate_internal_key_steps_iff (arr nil) steps =
      (λ h. cc, λ (e, full, all). absurd (full (sym (arr-eq e))))
  validate_internal_key_steps_iff (arr (cons x xs)) steps =
      let each = validate_each_iff (cons x xs) steps in
      (
        λ h.
            let (e, all) = each.0 h in
            (ap arr (sym e), λ empty. cc (sym e ∙ empty), kept_steps (sym e) all),
        λ (e, full, all). each.1 (sym (arr-eq e), kept_steps (sym (arr-eq e)) all),
      )
