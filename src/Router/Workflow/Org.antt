-- ===== src/Router/Workflow/Org.antt =====
-- packages/mcp-server/src/tools/toolRouter.ts: the workflow `org_rewrite_subtree`. The members of an
-- object stand in the order in which `Object.entries` gives them.
use Prim.Native.String
use emacs_llvm.Base.{
  ℕ, String, Bool, true, false, ◌||◌, Option, none, some, List, [], ◌∷◌, ◌++◌, if◌then◌else◌,
  str_eq, leb, any,
}
use emacs_llvm.Base.Json.{Json, undefined, null, bool, num, str, arr, obj, Fields, end, field, at}
use emacs_llvm.Base.Values.{array, fields, or_else, object_of, is_true}
use emacs_llvm.Base.Exec.{pure, lift, reads, ◌>>=◌, ◌>>◌}
use emacs_llvm.Protocol.Errors.{throw, ensure, invalid_argument, schema_validation, state_conflict}
use emacs_llvm.Protocol.Validation.{assert_object, required_string}
use emacs_llvm.Sessions.{EmacsSession}
use emacs_llvm.Router.State.{Server, Tool}
use emacs_llvm.Router.Arguments.{one_of}
use emacs_llvm.Router.Reads.{object_or_empty}
use emacs_llvm.Router.Workflow.Answers.{
  workflow_validation, workflow_command_return, workflow_org_observation,
}
use emacs_llvm.Router.Workflow.Steps.{
  Step, Ending, committed, proposal, workflow_transaction_scope, transaction,
}
use emacs_llvm.Router.Workflow.Lisp.{
  with_precondition, filled, is_named, text_json, create_checkpoint, commit_checkpoint,
}
use emacs_llvm.Router.Workflow.Structure.{count_of, count_ok}

-- `Object.prototype.hasOwnProperty.call(value, key)`
unfoldable pub has_own : Fields → String → Bool
has_own end key = false
has_own (field k v fs) key = str_eq k key || has_own fs key

abbrev pub size_ok : (String → ℕ) → Json → Bool
size_ok byte_length (str s) = leb (byte_length s) 262144
size_ok byte_length _ = true

abbrev members_of : Option Fields → Fields
members_of none = end
members_of (some fs) = fs

abbrev asserted : String → Json → Tool (Unit {0})
asserted name value = lift (assert_object value name) >>= λ fs. pure tt

abbrev pub if_object : String → Json → Tool (Unit {0})
if_object name undefined = pure tt
if_object name value = asserted name value

-- The commands that were sent, and whether there was none before.
pub record Progress : Type 0 where
  pub is_first : Bool
  pub mutations : List Json

abbrev untouched : Progress
untouched = record { is_first = true; mutations = [] }

abbrev move_command : String → String
move_command direction =
    if str_eq direction "up"
    then "emacs-operator-org-move-subtree-up"
    else "emacs-operator-org-move-subtree-down"

-- A value that the task may be set to.
abbrev is_state : Json → Bool
is_state null = true
is_state (str s) = true
is_state _ = false

module _ (step : Step) where
  unfoldable pub observe_org : Tool Fields
  observe_org = do
    observed ← step "emacs_capabilities" (fields (("operation", str "adapter_observe") ∷ []))
    lift (workflow_org_observation observed)

  unfoldable pub validate_org : Fields → Tool Fields
  validate_org args = do
    validated ← step "emacs_validate" (
        fields
          (("adapter", str "org") ∷ ("options", object_or_empty (at "validate_options" args)) ∷ []))
    lift (workflow_validation validated "org")

  -- A command; the first one is sent with the precondition.
  unfoldable pub run_command : Fields → String → List Json → Progress → Tool Progress
  run_command args command arguments p = do
    result ← step "emacs_command" (
        with_precondition (if p.is_first then at "precondition" args else undefined) (
          fields (
            ("command", str command)
            ∷ ("interactive", bool false)
            ∷ ("arguments", array arguments)
            ∷ [])))
    returned ← lift (workflow_command_return result)
    pure (record { is_first = false; mutations = p.mutations ++ returned ∷ [] })

  abbrev pub set_text : Fields → String → Json → Progress → Tool Progress
  set_text args command (str s) p = run_command args command (str s ∷ []) p
  set_text args command _ p = pure p

  unfoldable pub set_todo : Fields → Fields → Progress → Tool Progress
  set_todo args rewrite p =
      if has_own rewrite "todo"
      then (do
        lift (
            ensure (is_state (at "todo" rewrite)) schema_validation
              "rewrite.todo must be a string or null." none)
        run_command args "emacs-operator-org-set-todo" (or_else (at "todo" rewrite) null ∷ []) p)
      else pure p

  abbrev pub set_tags : Fields → Json → Progress → Tool Progress
  set_tags args undefined p = pure p
  set_tags args (arr xs) p = run_command args "emacs-operator-org-set-tags" (arr xs ∷ []) p
  set_tags args _ p = lift (throw schema_validation "rewrite.tags must be an array." none)

  abbrev pub set_property : Fields → String → Json → Progress → Tool Progress
  set_property args property (str s) p =
      run_command args "emacs-operator-org-set-property" (str property ∷ str s ∷ []) p
  set_property args property _ p = lift (
      throw schema_validation
        (String.◌++◌ "Org property " (String.◌++◌ property " must be a string.")) none)

  unfoldable pub set_properties : Fields → Fields → Progress → Tool Progress
  set_properties args end p = pure p
  set_properties args (field property value more) p = do
    q ← set_property args property value p
    set_properties args more q

  unfoldable pub move_subtree : Fields → Fields → Progress → Tool Progress
  move_subtree args move p = do
    direction ← lift (required_string move "direction")
    lift (
        ensure (one_of direction ("up" ∷ "down" ∷ [])) invalid_argument
          "Org subtree move direction must be up or down." none)
    let count = count_of (at "count" move)
    lift (
        ensure (count_ok count) invalid_argument "Org subtree move count must be from 1 to 100."
          none)
    run_command args (move_command direction) (num count ∷ []) p

  abbrev pub if_moved : Fields → Json → Progress → Tool Progress
  if_moved args (obj move) p = move_subtree args move p
  if_moved args _ p = pure p

  unfoldable pub rewrite_commands : Fields → Fields → Tool Progress
  rewrite_commands args rewrite = do
    p1 ← set_text args "emacs-operator-org-set-title" (at "title" rewrite) untouched
    p2 ← set_todo args rewrite p1
    p3 ← set_tags args (at "tags" rewrite) p2
    p4 ← set_properties args (members_of (object_of (at "properties" rewrite))) p3
    p5 ← set_text args "emacs-operator-org-rewrite-section-body" (at "body" rewrite) p4
    if_moved args (at "move" rewrite) p5

  unfoldable pub rewrite_body : String → Fields → Fields → Tool Ending
  rewrite_body checkpoint_id args rewrite = do
    done ← rewrite_commands args rewrite
    validation ← validate_org args
    let reported = ("mutations", array done.mutations) ∷ ("validation", obj validation) ∷ []
    if is_true (at "valid" validation)
        then (do
          commit ← commit_checkpoint step checkpoint_id
          pure (
              committed (
                obj (
                  fields (
                    ("operation", str "org_rewrite_subtree")
                      ∷ ("status", str "committed")
                      ∷ ("checkpoint_id", str checkpoint_id)
                      ∷ ("transaction_scope", workflow_transaction_scope false)
                      ∷ reported
                    ++ ("commit", commit) ∷ [])))))
        else pure (proposal "validation_failed" (fields reported) false)

  unfoldable pub workflow_org_rewrite_subtree : EmacsSession → Fields → Tool Json
  workflow_org_rewrite_subtree session args = do
    rewrite ← lift (assert_object (at "rewrite" args) "rewrite")
    lift (
        ensure
          (any (has_own rewrite) ("title" ∷ "todo" ∷ "tags" ∷ "properties" ∷ "body" ∷ "move" ∷ []))
          invalid_argument "org_rewrite_subtree requires at least one mutation field." none)
    short ← reads (λ (s : Server). size_ok s.world.byte_length (at "body" rewrite))
    lift (ensure short invalid_argument "Org rewrite body exceeds the 256 KiB safety bound." none)
    before ← observe_org
    let title = at "title" (members_of (object_of (at "heading" before)))
    let expected = filled (at "expected_title" rewrite)
    lift (
        ensure (is_named expected title) state_conflict
          "The current Org subtree does not match expected_title."
          (some (
            fields (
              ("expected_title", text_json expected) ∷ ("actual_title", or_else title null) ∷ []))))
    if_object "rewrite.properties" (at "properties" rewrite)
    if_object "rewrite.move" (at "move" rewrite)
    checkpoint_id ← create_checkpoint step "Org rewrite checkpoint"
    transaction step checkpoint_id "org_rewrite_subtree" (rewrite_body checkpoint_id args rewrite)
