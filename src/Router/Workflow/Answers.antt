-- ===== src/Router/Workflow/Answers.antt =====
-- packages/mcp-server/src/tools/toolRouter.ts: what the workflows read of the answers of their steps.
use Prim.Native.String
use emacs_llvm.Base.{String, Option, none, some, List, [], ◌∷◌, str_eq}
use emacs_llvm.Base.Json.{Json, bool, num, str, arr, obj, nil, cons, Fields, at, nat, Number}
use emacs_llvm.Base.Values.{fields, floor}
use emacs_llvm.Protocol.Errors.{
  Result, ok, throw, ensure, ◌>>=◌, ◌>>◌, internal, OperatorError, code_name,
}

unfoldable pub workflow_record : Json → String → Result Fields
workflow_record (obj fs) label = ok fs
workflow_record _ label = throw internal (String.◌++◌ label " was not an object.") none

unfoldable pub workflow_validation : Json → String → Result Fields
workflow_validation result adapter = do
  top ← workflow_record result "workflow validation result"
  bridge ← workflow_record (at "validation" top) "workflow validation bridge result"
  validations ← workflow_record (at "validations" bridge) "workflow adapter validations"
  workflow_record (at adapter validations) (String.◌++◌ adapter " validation")

unfoldable pub workflow_evaluation : Json → Result Fields
workflow_evaluation result = do
  top ← workflow_record result "workflow evaluation result"
  execution ← workflow_record (at "execution" top) "workflow evaluation execution"
  evaluation ← workflow_record (at "evaluation" execution) "workflow adapter evaluation"
  workflow_record (at "result" evaluation) "workflow adapter evaluation result"

-- The adapter of an answer, if it says one, is the one that was asked.
abbrev adapter_ok : String → Json → Result (Unit {0})
adapter_ok adapter (str s) =
    ensure (str_eq s adapter) internal
      (String.◌++◌ "Expected "
        (String.◌++◌ adapter (String.◌++◌ " analyzer but received " (String.◌++◌ s "."))))
      none
adapter_ok adapter _ = ok tt

-- The answer of a bridge that nests its result once more.
abbrev nested_analysis : Fields → String → Result Fields
nested_analysis analysis adapter = do
  dispatch ← workflow_record (at "analysis" analysis) "workflow adapter analysis dispatch"
  adapter_ok adapter (at "adapter" dispatch)
  workflow_record (at "analysis" dispatch) (String.◌++◌ adapter " analysis")

abbrev analysis_from : Fields → String → Json → Result Fields
analysis_from analysis adapter (obj fs) = ok fs
analysis_from analysis adapter _ = nested_analysis analysis adapter

unfoldable pub workflow_analysis : Json → String → Result Fields
workflow_analysis result adapter = do
  top ← workflow_record result "workflow analysis result"
  analysis ← workflow_record (at "analysis" top) "workflow analysis payload"
  adapter_ok adapter (at "adapter" analysis)
  analysis_from analysis adapter (at "result" analysis)

unfoldable pub workflow_command_return : Json → Result Json
workflow_command_return result = do
  top ← workflow_record result "workflow command result"
  execution ← workflow_record (at "execution" top) "workflow command execution"
  ok (at "return_value" execution)

-- `Array.isArray(value) && value.length === 2` with two numbers.
unfoldable pub workflow_bounds : Json → String → Result (Number × Number)
workflow_bounds (arr (cons (num m) (cons (num n) nil))) label = ok (floor m, floor n)
workflow_bounds _ label =
    throw internal (String.◌++◌ label " did not contain numeric [start,end] bounds.") none

unfoldable pub workflow_lisp_observation : Json → Result Fields
workflow_lisp_observation result = do
  top ← workflow_record result "adapter observation"
  adapters ← workflow_record (at "adapters" top) "adapter observation map"
  workflow_record (at "lisp" adapters) "Lisp adapter observation"

unfoldable pub workflow_org_observation : Json → Result Fields
workflow_org_observation result = do
  top ← workflow_record result "adapter observation"
  adapters ← workflow_record (at "adapters" top) "adapter observation map"
  workflow_record (at "org" adapters) "Org adapter observation"

-- `toJSON` of an error.
abbrev if_details : Option Fields → List (String × Json)
if_details none = []
if_details (some fs) = ("details", obj fs) ∷ []

unfoldable pub error_json : OperatorError → Json
error_json e = obj (
    fields (
      ("code", str (code_name e.code))
      ∷ ("category", nat e.category)
      ∷ ("message", str e.message)
      ∷ ("retryable", bool e.retryable)
      ∷ ("recovery", str e.recovery)
      ∷ if_details e.details))
