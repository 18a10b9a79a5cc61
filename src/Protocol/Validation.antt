-- ===== src/Protocol/Validation.antt =====
-- packages/protocol/src/validation.ts: what the tools ask of their arguments.
use Prim.Native.String
use emacs_llvm.Base.{String, Option, none, some, if◌then◌else◌, str_eq}
use emacs_llvm.Base.Json.{Json, undefined, num, str, obj, Number, is_finite, Fields, at}
use emacs_llvm.Protocol.Errors.{Result, ok, throw, ◌>>=◌, schema_validation}

-- The members of the object that is asserted.
unfoldable pub assert_object : Json → String → Result Fields
assert_object (obj fs) name = ok fs
assert_object _ name = throw schema_validation (String.◌++◌ name " must be an object.") none

abbrev not_a_text : String → String
not_a_text key = String.◌++◌ key " must be a non-empty string."

abbrev required_value : String → Json → Result String
required_value key (str s) =
    if str_eq s "" then throw schema_validation (not_a_text key) none else ok s
required_value key _ = throw schema_validation (not_a_text key) none

unfoldable pub required_string : Fields → String → Result String
required_string fs key = required_value key (at key fs)

abbrev optional_text : String → Json → Result (Option String)
optional_text key undefined = ok none
optional_text key (str s) = ok (some s)
optional_text key _ = throw schema_validation (String.◌++◌ key " must be a string.") none

unfoldable pub optional_string : Fields → String → Result (Option String)
optional_string fs key = optional_text key (at key fs)

abbrev not_a_number : String → Result (Option Number)
not_a_number key = throw schema_validation (String.◌++◌ key " must be a number.") none

abbrev optional_value : String → Json → Result (Option Number)
optional_value key undefined = ok none
optional_value key (num n) = if is_finite n then ok (some n) else not_a_number key
optional_value key _ = not_a_number key

unfoldable pub optional_number : Fields → String → Result (Option Number)
optional_number fs key = optional_value key (at key fs)

pub record MutationPrecondition : Type 0 where
  pub expected_state_seq : Option Number
  pub expected_buffer_id : Option String
  pub expected_buffer_tick : Option Number
  pub expected_major_mode : Option String
  pub expected_frontmost_pid : Option Number

abbrev precondition_of : Fields → Result MutationPrecondition
precondition_of fs = do
  state_seq ← optional_number fs "expected_state_seq"
  tick ← optional_number fs "expected_buffer_tick"
  pid ← optional_number fs "expected_frontmost_pid"
  buffer_id ← optional_string fs "expected_buffer_id"
  mode ← optional_string fs "expected_major_mode"
  ok (record {
    expected_state_seq = state_seq;
    expected_buffer_id = buffer_id;
    expected_buffer_tick = tick;
    expected_major_mode = mode;
    expected_frontmost_pid = pid;
  })

abbrev asserted_precondition : Json → Result (Option MutationPrecondition)
asserted_precondition value = do
  fs ← assert_object value "precondition"
  p ← precondition_of fs
  ok (some p)

unfoldable pub validate_precondition : Json → Result (Option MutationPrecondition)
validate_precondition undefined = ok none
validate_precondition value = asserted_precondition value
