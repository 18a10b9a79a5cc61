-- ===== src/Router/Workflow/Build.antt =====
-- packages/mcp-server/src/tools/toolRouter.ts: the workflow `org_build_section`.
use emacs_llvm.Base.{
  String, Bool, true, false, Option, none, some, List, [], ◌∷◌, ◌++◌, if◌then◌else◌,
}
use emacs_llvm.Base.Json.{Json, str, obj, Fields, at, nat, Number}
use emacs_llvm.Base.Values.{fields, is_true}
use emacs_llvm.Base.Exec.{pure, lift, reads, ◌>>=◌, ◌>>◌}
use emacs_llvm.Protocol.Errors.{Result, ok, err, ensure, invalid_argument}
use emacs_llvm.Protocol.Validation.{assert_object, required_string}
use emacs_llvm.Policy.{assert_structured_eval}
use emacs_llvm.Sessions.{EmacsSession}
use emacs_llvm.Router.State.{Server, Tool}
use emacs_llvm.Router.Workflow.Answers.{workflow_command_return, workflow_evaluation}
use emacs_llvm.Router.Workflow.Requests.{evaluation_timeout}
use emacs_llvm.Router.Workflow.Steps.{
  Step, Ending, committed, proposal, workflow_transaction_scope, transaction, unexpected,
}
use emacs_llvm.Router.Workflow.Lisp.{create_checkpoint, commit_checkpoint}
use emacs_llvm.Router.Workflow.Structure.{count_of}
use emacs_llvm.Router.Workflow.Org.{size_ok, if_object, validate_org}
use emacs_llvm.Router.Workflow.Section.{
  placement_of, level_ok, placement_ok, is_source, source_of, Content, create_heading,
  with_properties, goto_heading, heading_end, if_body, with_table, insert_source,
}

abbrev executes : Json → Bool
executes source = is_true (at "execute" (source_of source))

abbrev evaluation_of : Option Fields → List (String × Json)
evaluation_of none = []
evaluation_of (some r) = ("evaluation", obj r) ∷ []

abbrev is_evaluated : Option Fields → Bool
is_evaluated none = false
is_evaluated (some r) = true

-- Why the result of the source block stops the workflow, and the value that was expected.
abbrev babel_stops : (Json → String) → Fields → Option Fields → Option (String × Option String)
babel_stops text_of source none = none
babel_stops text_of source (some r) =
    if is_true (at "completed" r)
    then elim (unexpected text_of (at "expected_value" source) (at "value" r)) [
      | none ↦ none
      | some why ↦ some ("unexpected_babel_value", why.1)
    ]
    else some ("babel_condition", none)

abbrev expectation : Option String → List (String × Json)
expectation none = []
expectation (some s) = ("expected_value", str s) ∷ []

-- A member that is the value a command returned, if it was sent.
abbrev returned : String → Option Json → Result (List (String × Json))
returned key none = ok []
returned key (some result) = elim (workflow_command_return result) [
  | ok v ↦ ok ((key, v) ∷ [])
  | err e ↦ err e
]

module _ (step : Step) where
  unfoldable pub run_babel : Bool → Fields → Tool (Option Fields)
  run_babel asked source =
      if asked
      then (do
        evaluated ← step "emacs_eval" (
            fields (
              ("language", str "buffer_language")
              ∷ ("operation", str "execute_babel")
              ∷ ("adapter", str "org")
              ∷ ("timeout_ms", nat (evaluation_timeout (at "timeout_ms" source)))
              ∷ []))
        r ← lift (workflow_evaluation evaluated)
        pure (some r))
      else pure none

  -- The second validation, and the commit.
  unfoldable pub finish_section : String → Fields → Content → Option Fields → Tool Ending
  finish_section checkpoint_id args c babel = do
    validation ← validate_org step args
    if is_true (at "valid" validation)
        then (do
          commit ← commit_checkpoint step checkpoint_id
          table ← lift (returned "table" c.table)
          source ← lift (returned "source_block" c.source)
          pure (
              committed (
                obj (
                  fields (
                    ("operation", str "org_build_section")
                      ∷ ("status", str "committed")
                      ∷ ("checkpoint_id", str checkpoint_id)
                      ∷ ("transaction_scope", workflow_transaction_scope (is_evaluated babel))
                      ∷ ("heading", obj c.heading)
                      ∷ table
                    ++ source
                    ++ evaluation_of babel
                    ++ ("validation", obj validation) ∷ ("commit", commit) ∷ [])))))
        else pure (
            proposal "post_evaluation_validation_failed"
              (fields
                (("heading", obj c.heading) ∷ ("validation", obj validation) ∷ evaluation_of babel))
              (is_evaluated babel))

  -- The evaluation of the source block, if it is asked for.
  unfoldable pub evaluate_section : String → Fields → Bool → Fields → Content → Fields → Tool Ending
  evaluate_section checkpoint_id args asked source c validation = do
    babel ← run_babel asked source
    stopped ← reads (λ (s : Server). babel_stops s.world.text_of source babel)
    elim stopped [
      | none ↦ finish_section checkpoint_id args c babel
      | some (reason, expected) ↦ pure (
          proposal reason
            (fields (
              ("heading", obj c.heading) ∷ ("validation", obj validation) ∷ evaluation_of babel
              ++ expectation expected))
            true)
    ]

  unfoldable pub section_content : Fields → Fields → Json → String → Number → String → Tool Content
  section_content args section source title level placement = do
    heading ← create_heading step args section title level placement
    with_properties step (at "properties" section)
    goto_heading step (at "start" heading)
    p1 ← heading_end step
    p2 ← if_body step (at "body" section) p1
    table ← with_table step (at "table" section) p2
    put ← if is_source source then insert_source step (source_of source) table.1 else pure none
    pure (record { heading = heading; table = table.0; source = put })

  unfoldable pub build_body :
      String → Fields → Fields → Json → String → Number → String → Tool Ending
  build_body checkpoint_id args section source title level placement = do
    c ← section_content args section source title level placement
    validation ← validate_org step args
    if is_true (at "valid" validation)
        then evaluate_section checkpoint_id args (executes source) (source_of source) c validation
        else pure (
            proposal "validation_failed"
              (fields (("heading", obj c.heading) ∷ ("validation", obj validation) ∷ [])) false)

  unfoldable pub workflow_org_build_section : EmacsSession → Fields → Tool Json
  workflow_org_build_section session args = do
    section ← lift (assert_object (at "section" args) "section")
    title ← lift (required_string section "title")
    let level = count_of (at "level" section)
    lift (ensure (level_ok level) invalid_argument "Org section level must be from 1 to 50." none)
    let placement = placement_of (at "placement" section)
    lift (
        ensure (placement_ok placement) invalid_argument
          "Org section placement must be buffer_end or at_point." none)
    short ← reads (λ (s : Server). size_ok s.world.byte_length (at "body" section))
    lift (ensure short invalid_argument "Org section body exceeds the 256 KiB safety bound." none)
    let source = at "source_block" section
    if_object "section.source_block" source
    if executes source then lift (assert_structured_eval session) else pure tt
    checkpoint_id ← create_checkpoint step "Org workflow checkpoint"
    transaction step checkpoint_id "org_build_section"
        (build_body checkpoint_id args section source title level placement)
