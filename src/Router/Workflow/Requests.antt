-- ===== src/Router/Workflow/Requests.antt =====
-- packages/mcp-server/src/tools/toolRouter.ts: the evaluations that a workflow is asked for. `text_of`
-- is `String` of the runtime. The index of a step is left out of the messages about it.
use Prim.Native.String
use emacs_llvm.Base.{ℕ, suc, String, ◌&&◌, none, List, [], ◌∷◌, if◌then◌else◌, str_eq, leb, ltb}
use emacs_llvm.Base.Json.{
  Json, undefined, null, num, str, arr, obj, Items, nil, cons, Fields, end, field, at, nat,
}
use emacs_llvm.Base.Values.{fields, assign, clamp_floor}
use emacs_llvm.Protocol.Errors.{Result, ok, ensure, ◌>>=◌, ◌>>◌, invalid_argument}
use emacs_llvm.Protocol.Validation.{assert_object, required_string}
use emacs_llvm.Router.Arguments.{one_of}

abbrev pub evaluation_timeout : Json → ℕ
evaluation_timeout (num n) = clamp_floor 1 30000 n
evaluation_timeout _ = 5000

abbrev adapter_or_lisp : Json → String
adapter_or_lisp (str s) = if str_eq s "" then "lisp" else s
adapter_or_lisp _ = "lisp"

abbrev navigation_of : Json → String → Result Fields
navigation_of undefined label = ok end
navigation_of value label = do
  fs ← assert_object value (String.◌++◌ label ".navigation")
  ok (field "navigation" (obj fs) end)

-- How many items an array has.
abbrev pub count : Items → ℕ
count nil = 0
count (cons x xs) = suc (count xs)

module _ (text_of : Json → String) where
  abbrev expected_of : Json → Fields
  expected_of undefined = end
  expected_of value = field "expected_value" (str (text_of value)) end

  unfoldable pub workflow_evaluation_request : Json → String → Result Fields
  workflow_evaluation_request value label = do
    fs ← assert_object value label
    operation ← required_string fs "operation"
    ensure (one_of operation ("eval_last_sexp" ∷ "eval_defun" ∷ "eval_region" ∷ []))
        invalid_argument
        (String.◌++◌ label ".operation must be eval_last_sexp, eval_defun, or eval_region.") none
    navigation ← navigation_of (at "navigation" fs) label
    ok (
        assign
          (assign
            (fields (
              ("language", str "buffer_language")
              ∷ ("operation", str operation)
              ∷ ("adapter", str (adapter_or_lisp (at "adapter" fs)))
              ∷ ("timeout_ms", nat (evaluation_timeout (at "timeout_ms" fs)))
              ∷ []))
            (expected_of (at "expected_value" fs)))
          navigation)

  unfoldable pub each_request : Items → Result (List Fields)
  each_request nil = ok []
  each_request (cons x xs) = do
    r ← workflow_evaluation_request x "evaluation.steps"
    rs ← each_request xs
    ok (r ∷ rs)

  abbrev requests_from : Fields → Json → Result (List Fields)
  requests_from fs (arr steps) = do
    ensure (ltb 0 (count steps) && leb (count steps) 8) invalid_argument
        "evaluation.steps must contain 1 to 8 structured evaluation steps." none
    each_request steps
  requests_from fs _ = do r ← workflow_evaluation_request (obj fs) "evaluation"; ok (r ∷ [])

  abbrev given_requests : Json → Result (List Fields)
  given_requests value = do fs ← assert_object value "evaluation"; requests_from fs (at "steps" fs)

  unfoldable pub workflow_evaluation_requests : Json → Result (List Fields)
  workflow_evaluation_requests undefined = ok []
  workflow_evaluation_requests null = ok []
  workflow_evaluation_requests value = given_requests value
