-- ===== src/Router/NativeKeys.antt =====
-- packages/mcp-server/src/tools/toolRouter.ts: the channel of a key sequence, the events that the
-- driver gets for it, and `verifyNativeExecution`. `text_of` is `String` of the runtime.
use Prim.Native.String
use emacs_llvm.Base.{String, Bool, true, false, Option, none, some, [], ◌∷◌, if◌then◌else◌, str_eq}
use emacs_llvm.Base.Json.{Json, bool, num, str, arr, obj, Items, nil, cons, Fields, end, field, at}
use emacs_llvm.Base.Values.{object, fields, or_else, record_of, object_of, string_of, nullable}
use emacs_llvm.Protocol.Errors.{
  Result, ok, throw, ensure, ◌>>=◌, ◌>>◌, invalid_argument, command_failed,
}
use emacs_llvm.Sessions.{ExecutionChannel, semantic, internal_keys, native_keys}
use emacs_llvm.Router.Arguments.{member}

abbrev wrong_channel : Result ExecutionChannel
wrong_channel =
    throw invalid_argument "emacs_key_sequence requires internal_keys or native_keys channel." none

abbrev keys_channel : ExecutionChannel → Result ExecutionChannel
keys_channel semantic = wrong_channel
keys_channel other = ok other

unfoldable pub channel_of : Json → ExecutionChannel → Result ExecutionChannel
channel_of (str s) default =
    if str_eq s "internal_keys"
    then ok internal_keys
    else if str_eq s "native_keys"
    then ok native_keys
    else wrong_channel
channel_of _ default = keys_channel default

-- The members of the event that have the type asked for, under the names of the driver.
abbrev if_text : String → Json → Fields → Fields
if_text key (str s) rest = field key (str s) rest
if_text key _ rest = rest

abbrev if_array : String → Json → Fields → Fields
if_array key (arr xs) rest = field key (arr xs) rest
if_array key _ rest = rest

abbrev if_number : String → Json → Fields → Fields
if_number key (num n) rest = field key (num n) rest
if_number key _ rest = rest

abbrev is_kind : String → Json → Bool
is_kind name (str s) = str_eq s name
is_kind name _ = false

abbrev not_native : Result Json
not_native =
    throw invalid_argument
      "native_keys accepts structured event or text steps. Use internal_keys for Emacs kbd notation and expect steps."
      none

module _ (text_of : Json → String) where
  event_json : Option Fields → Result Json
  event_json none = not_native
  event_json (some event) = ok (
      obj (
        field "kind" (str (text_of (or_else (at "kind" event) (str "")))) (
          if_text "key" (at "key" event) (
            if_text "code" (at "code" event) (
              if_text "text" (at "text" event) (
                if_array "modifiers" (at "modifiers" event) (
                  if_number "repeat_count" (at "repeat" event)
                    (if_number "delay_after_milliseconds" (at "delayAfterMs" event) end))))))))

  unfoldable pub native_event : Json → Result Json
  unfolding event_json
  native_event step = do
    kind ← member "kind" step
    let members = record_of step
    if is_kind "text" kind
        then ok (
            object (
              ("kind", str "text")
              ∷ ("text", str (text_of (or_else (at "value" members) (str ""))))
              ∷ []))
        else if is_kind "event" kind
        then event_json (object_of (at "event" members))
        else not_native

  unfoldable pub native_events : Items → Result Items
  native_events nil = ok nil
  native_events (cons step steps) = do
    e ← native_event step
    es ← native_events steps
    ok (cons e es)

-- The steps, which have been validated to be an array.
abbrev pub steps_of : Json → Items
steps_of (arr xs) = xs
steps_of _ = nil

abbrev first_command : Json → Option String
first_command (arr (cons (obj fs) xs)) = string_of (at "command" fs)
first_command _ = none

abbrev first_of : Option String → Option String → Option String
first_of none other = other
first_of (some s) other = some s

abbrev matches : Option String → String → Bool
matches none expected = false
matches (some actual) expected = str_eq actual expected

abbrev shown : Option String → String
shown none = "no command"
shown (some s) = s

abbrev members_of : Option Fields → Fields
members_of none = end
members_of (some fs) = fs

compared : Json → String → Result Json
compared observed expected = do
  interaction ← member "interaction" observed
  let last = string_of (at "last_command" (members_of (object_of interaction)))
  let actual = first_of (first_command (at "recent_commands" (record_of observed))) last
  ensure (matches actual expected) command_failed
      (String.◌++◌ "Native key sequence completed but Emacs reported "
        (String.◌++◌ (shown actual) (String.◌++◌ " instead of " (String.◌++◌ expected "."))))
      (some
        (fields (("expected_command", str expected) ∷ ("observed_command", nullable actual) ∷ [])))
  ok (
      object (
        ("matched", bool true)
        ∷ ("expected_command", str expected)
        ∷ ("observed_command", nullable actual)
        ∷ []))

abbrev matched : Result Json
matched = ok (object (("matched", bool true) ∷ []))

-- The command that is expected, if there is one.
abbrev expectation : Option Fields → Option String
expectation none = none
expectation (some fs) = elim (string_of (at "expected_command" fs)) [
  | none ↦ none
  | some s ↦ if str_eq s "" then none else some s
]

unfoldable pub verify_native_execution : Json → Json → Result Json
unfolding compared
verify_native_execution observed verify = elim (expectation (object_of verify)) [
  | none ↦ matched
  | some expected ↦ compared observed expected
]
