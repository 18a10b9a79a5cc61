-- ===== src/Tests/Keys.antt =====
-- The steps of a key sequence at concrete values. `String` is asked for texts only.
use emacs_llvm.Base.{◌≡◌, ◌≢◌, refl, String}
use emacs_llvm.Base.Json.{Json, nil, cons, end, field, at, arr, obj, str}
use emacs_llvm.Protocol.Errors.{ok}
use emacs_llvm.Protocol.Keys.{
  all_modifiers, validate_canonical_key_event, validate_step, validate_each,
  validate_internal_key_steps,
}

abbrev string_of : Json → String
string_of (str s) = s
string_of _ = "undefined"

keys : Unit {0}
unfolding validate_internal_key_steps validate_each validate_step validate_canonical_key_event
    all_modifiers at
keys = tt

abbrev chord : Json
chord = obj (
    field "kind" (str "event") (
      field "event"
        (obj
          (field "kind" (str "key_press") (field "modifiers" (arr (cons (str "control") nil)) end)))
        end))

accepted : validate_internal_key_steps string_of (arr (cons chord nil)) ≡ ok (cons chord nil)
unfolding keys
accepted = refl

no_kind : validate_internal_key_steps string_of (arr (cons (obj end) nil)) ≢ ok (cons (obj end) nil)
unfolding keys
no_kind = λ h. cc
