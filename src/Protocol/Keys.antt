-- ===== src/Protocol/Keys.antt =====
-- packages/protocol/src/keys.ts: the validation of key events and of the steps of a key sequence.
-- `string_of` is `String` of the runtime. The index of a step is left out of the messages.
pub mod Steps
use emacs_llvm.Base.{
  ◌≡◌, ◌≢◌, refl, String, Bool, true, false, ◌&&◌, ◌||◌, not, Option, none, some, List, [], ◌∷◌,
  any, if◌then◌else◌, str_eq, arith, eq_iff,
}
use emacs_llvm.Base.Json.{
  Json, undefined, null, bool, num, str, arr, obj, Items, nil, cons, Fields, end, field, at, truthy,
}
use emacs_llvm.Protocol.Errors.{Result, ok, err, throw, ensure, ◌>>=◌, ◌>>◌, schema_validation}
use emacs_llvm.Protocol.Errors.Laws.{>>=-eq-ok, ensure-eq-ok}

-- The members of a value that is not `null` and of the type "object"; an array has none of those
-- that are read here.
abbrev members : Json → Option Fields
members (obj fs) = some fs
members (arr xs) = some end
members _ = none

-- `value === s`
abbrev is_text : String → Json → Bool
is_text s (str t) = str_eq t s
is_text s _ = false

abbrev is_string : Json → Bool
is_string (str t) = true
is_string _ = false

abbrev is_modifier : Json → Bool
is_modifier (str t) =
    any (λ m. str_eq t m)
      ("control" ∷ "meta" ∷ "shift" ∷ "super" ∷ "hyper" ∷ "alt" ∷ "command" ∷ "option" ∷ "fn" ∷ [])
is_modifier _ = false

unfoldable pub all_modifiers : Items → Bool
all_modifiers nil = true
all_modifiers (cons x xs) = is_modifier x && all_modifiers xs

abbrev modifiers_ok : Json → Bool
modifiers_ok undefined = true
modifiers_ok (arr xs) = all_modifiers xs
modifiers_ok _ = false

abbrev is_event_kind : String → Bool
is_event_kind kind = any (λ k. str_eq kind k) ("key_down" ∷ "key_up" ∷ "key_press" ∷ "text" ∷ [])

module _ (string_of : Json → String) where
  unfoldable pub validate_canonical_key_event : Json → Result Json
  validate_canonical_key_event value = elim (members value) [
    | none ↦ throw schema_validation "Key event must be an object." none
    | some event ↦ do
      ensure (is_event_kind (string_of (at "kind" event))) schema_validation
          "Invalid key event kind." none
      ensure (not (is_text "text" (at "kind" event)) || is_string (at "text" event))
          schema_validation "Text key event requires text." none
      ensure (modifiers_ok (at "modifiers" event)) schema_validation "Invalid key modifiers." none
      ok value
  ]

  abbrev is_object : Json → Bool
  is_object value = elim (members value) [ none ↦ false | some fs ↦ true ]

  unfoldable pub validate_step : Json → Result Json
  validate_step raw = elim (members raw) [
    | none ↦ throw schema_validation "The step must be an object." none
    | some step ↦
        if is_text "keys" (at "kind" step) || is_text "text" (at "kind" step)
        then (do
          ensure (is_string (at "value" step)) schema_validation "The value must be a string." none
          ok raw)
        else if is_text "event" (at "kind" step)
        then (do event ← validate_canonical_key_event (at "event" step); ok raw)
        else if is_text "expect" (at "kind" step)
        then (do
          ensure (is_object (at "condition" step)) schema_validation
              "The condition must be an object." none
          ok raw)
        else throw schema_validation "Unsupported key step kind." none
  ]

  unfoldable pub validate_each : Items → Result Items
  validate_each nil = ok nil
  validate_each (cons x xs) = do
    step ← validate_step x
    steps ← validate_each xs
    ok (cons step steps)

  unfoldable pub validate_internal_key_steps : Json → Result Items
  validate_internal_key_steps (arr (cons x xs)) = validate_each (cons x xs)
  validate_internal_key_steps _ = throw schema_validation "steps must be a non-empty array." none
