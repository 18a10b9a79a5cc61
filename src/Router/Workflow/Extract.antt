-- ===== src/Router/Workflow/Extract.antt =====
-- packages/mcp-server/src/tools/toolRouter.ts: the workflow `extract_function`.
use emacs_llvm.Base.{
  ℕ, String, Bool, true, false, ◌&&◌, ◌||◌, not, Option, none, some, List, [], ◌∷◌, ◌++◌,
  if◌then◌else◌, str_eq, leb,
}
use emacs_llvm.Base.Json.{
  Json, undefined, bool, num, str, arr, obj, Items, nil, cons, Fields, at, nat, Number, integer,
}
use emacs_llvm.Base.Values.{array, fields, is_true, natural, floor, less}
use emacs_llvm.Base.Exec.{pure, lift, reads, ◌>>=◌, ◌>>◌}
use emacs_llvm.Protocol.Errors.{Result, ok, ensure, throw, invalid_argument, analysis_unresolved}
use emacs_llvm.Protocol.Validation.{assert_object, required_string}
use emacs_llvm.Policy.{assert_structured_eval}
use emacs_llvm.Sessions.{EmacsSession}
use emacs_llvm.Router.State.{Server, Tool}
use emacs_llvm.Router.Workflow.Answers.{
  workflow_record, workflow_command_return, workflow_analysis, workflow_evaluation, workflow_bounds,
}
use emacs_llvm.Router.Workflow.Requests.{workflow_evaluation_requests, count}
use emacs_llvm.Router.Workflow.Steps.{Step, Ending, proposal, transaction}
use emacs_llvm.Router.Workflow.Lisp.{
  with_precondition, filled, create_checkpoint, validate, is_empty, evaluate_and_commit,
}
use emacs_llvm.Router.Workflow.Rename.{expect_defun}

-- A position, or what is not one.
abbrev position_of : Json → Option Number
position_of (num n) = some (floor n)
position_of _ = none

abbrev is_integer : Number → Bool
is_integer (integer n) = true
is_integer _ = false

abbrev range_ok : Number → Number → Bool
range_ok start stop =
    is_integer start && is_integer stop && not (less start (natural 1)) && less start stop

abbrev wrong_range : Result (Number × Number)
wrong_range =
    throw invalid_argument
      "extract_function requires range.start < range.end with positive integer positions." none

-- The two ends of the range, if they make one.
abbrev range_of : Option Number → Option Number → Result (Number × Number)
range_of (some start) (some stop) = if range_ok start stop then ok (start, stop) else wrong_range
range_of _ _ = wrong_range

abbrev strings_of : Items → Items
strings_of nil = nil
strings_of (cons (str s) xs) = cons (str s) (strings_of xs)
strings_of (cons _ xs) = strings_of xs

abbrev array_or_empty : Json → Items
array_or_empty (arr xs) = xs
array_or_empty _ = nil

abbrev are_symbols : (String → ℕ) → Items → Bool
are_symbols byte_length nil = true
are_symbols byte_length (cons (str s) xs) =
    not (str_eq s "") && leb (byte_length s) 512 && are_symbols byte_length xs
are_symbols byte_length (cons _ xs) = false

abbrev parameters_ok : (String → ℕ) → Json → Bool
parameters_ok byte_length (arr xs) = leb (count xs) 128 && are_symbols byte_length xs
parameters_ok byte_length _ = false

-- The evaluations that took place, and whether all of them completed.
abbrev listed : Option Fields → List Json
listed none = []
listed (some r) = obj r ∷ []

abbrev completes : Option Fields → Bool
completes none = true
completes (some r) = is_true (at "completed" r)

abbrev analysis_members : Option Fields → List (String × Json)
analysis_members none = []
analysis_members (some fs) = ("analysis", obj fs) ∷ []

-- What the workflow is asked for, as far as it has been checked.
pub record Extraction : Type 0 where
  pub bounds : Number × Number
  pub name : String
  pub parameters : Json
  pub analysis : Option Fields
  pub evaluate_definition : Bool
  pub evaluate_enclosing : Bool

module _ (step : Step) where
  -- The parameters that the analyzer infers.
  unfoldable pub infer_parameters : Number × Number → Tool (Json × Option Fields)
  infer_parameters bounds = do
    analyzed ← step "emacs_analyze" (
        fields (
          ("adapter", str "lisp")
          ∷ ("operation", str "infer_extract_parameters")
          ∷ ("params", obj (fields (("bounds", array (num bounds.0 ∷ num bounds.1 ∷ [])) ∷ [])))
          ∷ []))
    analysis ← lift (workflow_analysis analyzed "lisp")
    let unresolved = strings_of (array_or_empty (at "unresolved" analysis))
    lift (
        ensure (leb (count unresolved) 0) analysis_unresolved
          "extract_function parameter inference is unresolved; provide explicit parameters or narrow the selected forms."
          (some (fields (("unresolved", arr unresolved) ∷ ("analysis", obj analysis) ∷ []))))
    pure (arr (array_or_empty (at "parameters" analysis)), some analysis)

  abbrev pub parameters_of : Json → Number × Number → Tool (Json × Option Fields)
  parameters_of undefined bounds = infer_parameters bounds
  parameters_of value bounds = pure (value, none)

  -- The evaluation of the definition round a position.
  unfoldable pub evaluate_at : Number → Tool Fields
  evaluate_at position = do
    moved ←
        step "emacs_navigate"
          (fields (("operation", str "goto_position") ∷ ("position", num position) ∷ []))
    evaluated ← step "emacs_eval" (
        fields (
          ("language", str "buffer_language")
          ∷ ("operation", str "eval_defun")
          ∷ ("adapter", str "lisp")
          ∷ ("timeout_ms", nat 5000)
          ∷ []))
    lift (workflow_evaluation evaluated)

  unfoldable pub evaluate_definition : Bool → Fields → Tool (Option Fields)
  evaluate_definition asked mutation =
      if asked
      then (do
        bounds ←
            lift
              (workflow_bounds (at "new_definition_bounds" mutation) "extracted definition bounds")
        r ← evaluate_at bounds.0
        pure (some r))
      else pure none

  unfoldable pub evaluate_enclosing : Bool → Fields → Tool (Option Fields)
  evaluate_enclosing asked mutation =
      if asked
      then (do
        lift (
            workflow_bounds (at "enclosing_definition_bounds" mutation)
              "enclosing definition bounds")
        bounds ← lift (workflow_bounds (at "call_bounds" mutation) "extracted call bounds")
        r ← evaluate_at bounds.0
        pure (some r))
      else pure none

  abbrev runtime_condition : List (String × Json) → List Json → Tool Ending
  runtime_condition more results =
      pure
        (proposal "runtime_condition" (fields (more ++ ("evaluations", array results) ∷ [])) true)

  -- What is left of the workflow once the text is valid.
  unfoldable pub extract_rest :
      String → Extraction → Fields → List (String × Json) → List Fields → Tool Ending
  extract_rest checkpoint_id x mutation more requests = do
    definition ← evaluate_definition x.evaluate_definition mutation
    if completes definition
        then (do
          enclosing ← evaluate_enclosing x.evaluate_enclosing mutation
          if completes enclosing
              then evaluate_and_commit step checkpoint_id "extract_function"
                  (listed definition ++ listed enclosing) requests more
                  (more ++ analysis_members x.analysis)
              else runtime_condition more (listed definition ++ listed enclosing))
        else runtime_condition more (listed definition)

  unfoldable pub extract_body : String → Extraction → Fields → List Fields → Tool Ending
  extract_body checkpoint_id x args requests = do
    mutated ← step "emacs_command" (
        with_precondition (at "precondition" args) (
          fields (
            ("command", str "emacs-operator-lisp-extract-function")
            ∷ ("interactive", bool false)
            ∷ (
              "arguments",
              array (num x.bounds.0 ∷ num x.bounds.1 ∷ str x.name ∷ x.parameters ∷ []),
            )
            ∷ [])))
    returned ← lift (workflow_command_return mutated)
    mutation ← lift (workflow_record returned "extract_function return value")
    validation ← validate step args
    let more = ("mutation", obj mutation) ∷ ("validation", obj validation) ∷ []
    if is_true (at "valid" validation)
        then extract_rest checkpoint_id x mutation more requests
        else pure (proposal "validation_failed" (fields more) false)

  -- The arguments, in the order in which they are checked.
  unfoldable pub extraction_of : Fields → Tool Extraction
  extraction_of args = do
    range ← lift (assert_object (at "range" args) "range")
    bounds ← lift (range_of (position_of (at "start" range)) (position_of (at "end" range)))
    name ← lift (required_string args "name")
    size ← reads (λ (s : Server). s.world.byte_length name)
    lift (ensure (leb size 512) invalid_argument "Extracted function name exceeds 512 bytes." none)
    found ← parameters_of (at "parameters" args) bounds
    proper ← reads (λ (s : Server). parameters_ok s.world.byte_length found.0)
    lift (
        ensure proper invalid_argument
          "extract_function parameters must contain at most 128 non-empty symbol strings of at most 512 bytes."
          none)
    expect_defun step "extract_function" (filled (at "expected_name" args))
    pure (record {
      bounds = bounds;
      name = name;
      parameters = found.0;
      analysis = found.1;
      evaluate_definition = is_true (at "evaluate_definition" args);
      evaluate_enclosing = is_true (at "evaluate_enclosing_definition" args);
    })

  unfoldable pub workflow_extract_function : EmacsSession → Fields → Tool Json
  workflow_extract_function session args = do
    x ← extraction_of args
    parsed ←
        reads (λ (s : Server). workflow_evaluation_requests s.world.text_of (at "evaluation" args))
    requests ← lift parsed
    lift (
        ensure (not x.evaluate_enclosing || x.evaluate_definition) invalid_argument
          "evaluate_enclosing_definition requires evaluate_definition=true so the extracted helper is loaded first."
          none)
    if x.evaluate_definition || x.evaluate_enclosing || not (is_empty requests)
        then lift (assert_structured_eval session)
        else pure tt
    checkpoint_id ← create_checkpoint step "extract checkpoint"
    transaction step checkpoint_id "extract_function" (extract_body checkpoint_id x args requests)
