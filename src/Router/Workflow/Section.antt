-- ===== src/Router/Workflow/Section.antt =====
-- packages/mcp-server/src/tools/toolRouter.ts: what the workflow `org_build_section` puts into a buffer.
use Prim.Native.String
use emacs_llvm.Base.{
  String, Bool, true, false, ◌&&◌, ◌||◌, not, Option, none, some, List, [], ◌∷◌, if◌then◌else◌,
  str_eq, ◌==◌, leb,
}
use emacs_llvm.Base.Bytes.{Text, codes}
use emacs_llvm.Base.Json.{Json, undefined, null, bool, num, str, arr, obj, Fields, end, at, Number}
use emacs_llvm.Base.Values.{array, fields, or_else, natural, floor, less}
use emacs_llvm.Base.Exec.{pure, lift, reads, ◌>>=◌, ◌>>◌}
use emacs_llvm.Protocol.Errors.{
  Result, ok, throw, ensure, invalid_argument, internal, schema_validation,
}
use emacs_llvm.Protocol.Validation.{assert_object, required_string}
use emacs_llvm.Router.State.{Server, Tool}
use emacs_llvm.Router.Workflow.Answers.{workflow_record, workflow_command_return, workflow_bounds}
use emacs_llvm.Router.Workflow.Steps.{Step}
use emacs_llvm.Router.Workflow.Lisp.{with_precondition}
use emacs_llvm.Router.Workflow.Org.{set_properties}

abbrev pub placement_of : Json → String
placement_of (str s) = s
placement_of _ = "buffer_end"

-- From 1 to 50.
abbrev pub level_ok : Number → Bool
level_ok n = not (less n (natural 1) || less (natural 50) n)

abbrev pub placement_ok : String → Bool
placement_ok s = str_eq s "buffer_end" || str_eq s "at_point"

abbrev array_or_null : Json → Json
array_or_null (arr xs) = arr xs
array_or_null _ = null

abbrev text_or_empty : Json → String
text_or_empty (str s) = s
text_or_empty _ = ""

-- Whether a text ends with a line feed.
abbrev ends_line : Text → Bool
ends_line [] = false
ends_line (c ∷ []) = c == 10
ends_line (c ∷ d ∷ cs) = ends_line (d ∷ cs)

abbrev own_lines : String → String
own_lines body = String.◌++◌ "\n" (String.◌++◌ body (if ends_line (codes body) then "" else "\n"))

abbrev given_point : Json → Result Number
given_point (num n) = ok (floor n)
given_point _ = throw internal "Org heading navigation did not report point." none

abbrev point_over : Json → Number → Number
point_over (num n) other = floor n
point_over _ other = other

abbrev is_array : Json → Bool
is_array (arr xs) = true
is_array _ = false

abbrev pub is_source : Json → Bool
is_source (obj fs) = true
is_source _ = false

-- The members of the source block, if there is one.
abbrev pub source_of : Json → Fields
source_of (obj fs) = fs
source_of _ = end

-- What was put under the heading: the heading itself, and the answers of the two commands.
pub record Content : Type 0 where
  pub heading : Fields
  pub table : Option Json
  pub source : Option Json

module _ (step : Step) where
  unfoldable pub goto : Number → Tool Json
  goto position =
      step "emacs_navigate"
        (fields (("operation", str "goto_position") ∷ ("position", num position) ∷ []))

  unfoldable pub command : String → List Json → Json → Tool Json
  command name arguments precondition = step "emacs_command" (
      with_precondition precondition (
        fields (
          ("command", str name)
          ∷ ("interactive", bool false)
          ∷ ("arguments", array arguments)
          ∷ [])))

  unfoldable pub create_heading : Fields → Fields → String → Number → String → Tool Fields
  create_heading args section title level placement = do
    if str_eq placement "buffer_end"
        then (step "emacs_navigate" (fields (("operation", str "buffer_end") ∷ [])) >>= λ moved.
            pure tt)
        else pure tt
    created ←
        command "emacs-operator-org-create-heading"
          (str title
            ∷ num level
            ∷ or_else (at "todo" section) null
            ∷ array_or_null (at "tags" section)
            ∷ [])
          (at "precondition" args)
    value ← lift (workflow_command_return created)
    lift (workflow_record value "Org create heading return value")

  abbrev pub with_properties : Json → Tool (Unit {0})
  with_properties undefined = pure tt
  with_properties value = do
    properties ← lift (assert_object value "section.properties")
    done ← set_properties step end properties (record { is_first = false; mutations = [] })
    pure tt

  abbrev pub goto_heading : Json → Tool (Unit {0})
  goto_heading (num n) = goto (floor n) >>= λ moved. pure tt
  goto_heading _ = pure tt

  -- The point at the end of the heading.
  unfoldable pub heading_end : Tool Number
  heading_end = do
    moved ← step "emacs_navigate" (fields (("operation", str "line_end") ∷ []))
    navigation ← lift (workflow_record moved "heading line navigation")
    observed ← lift (workflow_record (at "observed" navigation) "heading line observed state")
    cursor ← lift (workflow_record (at "cursor" observed) "heading line cursor")
    lift (given_point (at "point" cursor))

  unfoldable pub insert_body : String → Number → Tool Number
  insert_body body point = if str_eq body "" then pure point else (do
    edited ← step "emacs_edit" (
        fields (
          ("operation", str "insert")
          ∷ ("position", num point)
          ∷ ("text", str (own_lines body))
          ∷ []))
    inserted ← lift (workflow_record edited "Org body insertion")
    observed ← lift (workflow_record (at "observed" inserted) "Org body observed state")
    cursor ← lift (workflow_record (at "cursor" observed) "Org body cursor")
    pure (point_over (at "point" cursor) point))

  abbrev pub if_body : Json → Number → Tool Number
  if_body (str body) point = insert_body body point
  if_body _ point = pure point

  -- A table with its headers and rows, and the point behind it.
  unfoldable pub insert_table : Fields → Number → Tool (Option Json × Number)
  insert_table table point = do
    lift (
        ensure (is_array (at "headers" table) && is_array (at "rows" table)) schema_validation
          "Org table requires headers and rows arrays." none)
    moved ← goto point
    result ←
        command "emacs-operator-org-insert-table" (at "headers" table ∷ at "rows" table ∷ [])
          undefined
    value ← lift (workflow_command_return result)
    answered ← lift (workflow_record value "Org table return value")
    metadata ← lift (workflow_record (at "table" answered) "Org table metadata")
    bounds ← lift (workflow_bounds (at "bounds" metadata) "Org table bounds")
    pure (some result, bounds.1)

  abbrev pub with_table : Json → Number → Tool (Option Json × Number)
  with_table undefined point = pure (none, point)
  with_table value point = do
    table ← lift (assert_object value "section.table")
    insert_table table point

  unfoldable pub insert_source : Fields → Number → Tool (Option Json)
  insert_source source point = do
    language ← lift (required_string source "language")
    let body = text_or_empty (at "body" source)
    short ← reads (λ (s : Server). leb (s.world.byte_length body) 262144)
    lift (ensure short invalid_argument "Org source block exceeds the 256 KiB safety bound." none)
    moved ← goto point
    result ←
        command "emacs-operator-org-insert-src-block"
          (str language ∷ str body ∷ str (text_or_empty (at "headers" source)) ∷ []) undefined
    pure (some result)
