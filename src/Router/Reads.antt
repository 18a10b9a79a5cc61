-- ===== src/Router/Reads.antt =====
-- packages/mcp-server/src/tools/toolRouter.ts: the tools that only look, or move point. An answer of
-- Emacs that should be an object and is something else, but not `null`, is read as one without
-- members.
use emacs_llvm.Base.{ℕ, true, Option, none, some, [], ◌∷◌, if◌then◌else◌, str_eq}
use emacs_llvm.Base.Json.{Json, null, bool, num, str, arr, obj, Fields, end, at, Number, nat}
use emacs_llvm.Base.Values.{
  object, array, fields, assign, or_else, record_of, object_of, is_true, string_or_null,
  number_or_null, less, clamp, clamp_floor, natural,
}
use emacs_llvm.Base.Exec.{pure, lift, reads, ◌>>=◌, ◌>>◌}
use emacs_llvm.Protocol.Validation.{required_string, validate_precondition}
use emacs_llvm.Policy.{assert_capture}
use emacs_llvm.Sessions.{EmacsSession}
use emacs_llvm.Router.State.{Tool, driver, exchange, request, set_before, set_after}
use emacs_llvm.Router.Arguments.{member, snake_target, native_target, state_summary}
use emacs_llvm.Router.Registry.{find_record}
use emacs_llvm.Router.Windows.{Window, read_window, can_capture}

unfoldable pub observe_compact : EmacsSession → Tool Json
observe_compact session = request session "state.observe" (
    object (
      ("target", snake_target session)
      ∷ ("scope", array (str "compact" ∷ []))
      ∷ ("around_chars", nat 256)
      ∷ []))

abbrev around : Json → Number
around (num n) = clamp 0 16384 n
around _ = natural 1600

unfoldable pub emacs_observe : Fields → EmacsSession → Tool Json
emacs_observe args session = do
  result ← request session "state.observe" (
      object (
        ("target", snake_target session)
        ∷ ("scope", or_else (at "scope" args) (array (str "compact" ∷ str "context" ∷ [])))
        ∷ ("around_chars", num (around (at "around_chars" args)))
        ∷ ("since_state_seq", or_else (at "since_state_seq" args) null)
        ∷ []))
  set_after (state_summary result)
  pure result

abbrev number_over : Json → Number → Number
number_over (num n) other = n
number_over _ other = other

-- What is added to the resource that was read.
abbrev continuation : Window → Number → Fields
continuation w actual_end = fields (
    ("point_min", num w.point_min)
    ∷ ("point_max", num w.point_max)
    ∷ ("requested_end", num w.requested_end)
    ∷ ("truncated", bool (less actual_end w.requested_end))
    ∷ ("next_start", if less actual_end w.requested_end then num actual_end else null)
    ∷ [])

abbrev members_of : Option Fields → Fields
members_of none = end
members_of (some fs) = fs

unfoldable pub emacs_read : Fields → EmacsSession → Tool Json
emacs_read args session = do
  observed ← observe_compact session
  buffer ← lift (member "buffer" observed)
  w ← lift (read_window (members_of (object_of buffer)) args)
  resource ← request session "resource.read" (
      object (("target", snake_target session) ∷ ("start", num w.start) ∷ ("end", num w.stop) ∷ []))
  stop ← lift (member "end" resource)
  set_after (state_summary observed)
  pure (obj (assign (record_of resource) (continuation w (number_over stop w.stop))))

unfoldable pub emacs_navigate : Fields → EmacsSession → Tool Json
emacs_navigate args session = do
  lift (validate_precondition (at "precondition" args))
  before ← observe_compact session
  set_before (state_summary before)
  operation ← lift (required_string args "operation")
  result ← request session "navigation.execute" (
      object (
        ("target", snake_target session)
        ∷ ("operation", str operation)
        ∷ ("position", or_else (at "position" args) null)
        ∷ ("line", or_else (at "line" args) null)
        ∷ ("query", or_else (at "query" args) null)
        ∷ ("regex", bool (is_true (at "regex" args)))
        ∷ ("case_sensitive", bool (is_true (at "case_sensitive" args)))
        ∷ ("count", or_else (at "count" args) (nat 1))
        ∷ ("bound", or_else (at "bound" args) null)
        ∷ ("precondition", or_else (at "precondition" args) null)
        ∷ []))
  observed ← observe_compact session
  set_after (state_summary observed)
  pure (object (("execution", result) ∷ ("observed", observed) ∷ []))

unfoldable pub emacs_capabilities : Fields → EmacsSession → Tool Json
emacs_capabilities args session = do
  operation ← lift (required_string args "operation")
  request session "capabilities.query" (
      object (
        ("target", snake_target session)
        ∷ ("operation", str operation)
        ∷ ("key", or_else (at "key" args) null)
        ∷ ("command", or_else (at "command" args) null)
        ∷ ("feature", or_else (at "feature" args) null)
        ∷ ("adapter", or_else (at "adapter" args) null)
        ∷ []))

-- `typeof value === "string" && value.length > 0 ? value : null`
abbrev pub text_or_null : Json → Json
text_or_null (str s) = if str_eq s "" then null else str s
text_or_null _ = null

-- `value && typeof value === "object" ? value : {}`
abbrev pub object_or_empty : Json → Json
object_or_empty (obj fs) = obj fs
object_or_empty (arr xs) = arr xs
object_or_empty _ = obj end

unfoldable pub emacs_validate : Fields → EmacsSession → Tool Json
emacs_validate args session = do
  before ← observe_compact session
  set_before (state_summary before)
  result ← request session "adapter.validate" (
      object (
        ("target", snake_target session)
        ∷ ("adapter", text_or_null (at "adapter" args))
        ∷ ("options", object_or_empty (at "options" args))
        ∷ []))
  observed ← observe_compact session
  set_after (state_summary observed)
  pure (object (("validation", result) ∷ ("observed", observed) ∷ []))

abbrev wait_timeout : Json → Number
wait_timeout (num n) = clamp 1 10000 n
wait_timeout _ = natural 5000

unfoldable pub emacs_wait : Fields → EmacsSession → Tool Json
emacs_wait args session = request session "wait.condition" (
    object (
      ("target", snake_target session)
      ∷ ("condition", at "condition" args)
      ∷ ("timeout_ms", num (wait_timeout (at "timeout_ms" args)))
      ∷ []))

abbrev string_over : Json → Json → Json
string_over (str s) other = str s
string_over _ other = other

unfoldable pub emacs_analyze : Fields → EmacsSession → Tool Json
emacs_analyze args session = do
  operation ← lift (required_string args "operation")
  let adapter = string_or_null (at "adapter" args)
  response ← request session "adapter.analyze" (
      object (
        ("target", snake_target session)
        ∷ ("adapter", adapter)
        ∷ ("operation", str operation)
        ∷ ("params", object_or_empty (at "params" args))
        ∷ []))
  analysis ← lift (member "analysis" response)
  let dispatch = record_of analysis
  let answer = record_of response
  pure (
      object (
        (
          "analysis",
          object (
              ("operation", string_over (at "operation" answer) (str operation))
              ∷ ("adapter", string_over (at "adapter" dispatch) adapter)
              ∷ ("result", obj (record_of (or_else (at "analysis" dispatch) (obj dispatch))))
              ∷ ("buffer_id", string_or_null (at "buffer_id" answer))
              ∷ ("buffer_tick", number_or_null (at "buffer_tick" answer))
              ∷ []),
        )
        ∷ []))

abbrev width : Json → ℕ
width (num n) = clamp_floor 256 4096 n
width _ = 2048

unfoldable pub emacs_capture : Fields → EmacsSession → Tool Json
emacs_capture args session = do
  lift (assert_capture session)
  capabilities ← exchange driver (some session) "initialize" (obj end)
  lift (can_capture (record_of capabilities))
  found ← find_record (some session.instance_id)
  captured ← exchange driver (some session) "capture_emacs" (
      object (
        (
          "target",
          native_target session found.pid (at "window_title" args) (at "window_identifier" args),
        )
        ∷ ("max_width", nat (width (at "max_width" args)))
        ∷ ("include_cursor", bool (is_true (at "include_cursor" args)))
        ∷ []))
  path ← lift (member "path" captured)
  read ← reads (λ s. s.world.consume_png s.sent path)
  image ← lift read
  pure (
      object (
        ("width", at "width" (record_of captured))
        ∷ ("height", at "height" (record_of captured))
        ∷ ("bytes", at "bytes" image)
        ∷ ("mime_type", at "mime_type" image)
        ∷ ("image_data", at "data" image)
        ∷ ("transient_file_consumed", bool true)
        ∷ []))
