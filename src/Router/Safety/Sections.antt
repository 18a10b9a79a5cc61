-- ===== src/Router/Safety/Sections.antt =====
-- Safety of packages/mcp-server/src/tools/toolRouter.ts: the workflow
-- `org_build_section`, by its steps.
use emacs_llvm.Base.{String, Bool, Option, List}
use emacs_llvm.Base.Json.{Json, undefined, null, bool, num, str, arr, obj, Fields, Number}
use emacs_llvm.Base.Values.{floor}
use emacs_llvm.Base.Exec.Keeps.{turns_rules, Turns-bind, Turns-elim, Keeps-pure, Keeps-reads}
use emacs_llvm.Sessions.{EmacsSession}
use emacs_llvm.Router.Workflow.Steps.{Step}
use emacs_llvm.Router.Workflow.Section.{
  Content, goto, command, create_heading, with_properties, goto_heading, heading_end, insert_body,
  if_body, insert_table, with_table, insert_source,
}
use emacs_llvm.Router.Workflow.Build.{
  run_babel, finish_section, evaluate_section, section_content, build_body,
  workflow_org_build_section,
}
use emacs_llvm.Router.Safety.Workflows.{
  IsKept, Keeps-create_checkpoint, Keeps-transaction, Keeps-commit_checkpoint,
}
use emacs_llvm.Router.Safety.Org.{Keeps-if_object, Keeps-validate_org, Keeps-set_properties}

module _ (step : Step) (kept : (name : String) (args : Fields) → IsKept (step name args)) where
  Keeps-goto : (position : Number) → IsKept (goto step position)
  unfolding goto
  Keeps-goto position = kept _ _

  Keeps-command :
      (name : String) (arguments : List Json) (precondition : Json)
      → IsKept (command step name arguments precondition)
  unfolding command
  Keeps-command name arguments precondition = kept _ _

  Keeps-create_heading :
      (args section : Fields) (title : String) (level : Number) (placement : String)
      → IsKept (create_heading step args section title level placement)
  unfolding create_heading
  Keeps-create_heading args section title level placement =
      search (turns_rules, kept, Keeps-command) depth 7

  Keeps-with_properties : (value : Json) → IsKept (with_properties step value)
  Keeps-with_properties undefined = Keeps-pure tt
  Keeps-with_properties null = search (turns_rules, Keeps-set_properties step kept)
  Keeps-with_properties (bool b) = search (turns_rules, Keeps-set_properties step kept)
  Keeps-with_properties (num n) = search (turns_rules, Keeps-set_properties step kept)
  Keeps-with_properties (str s) = search (turns_rules, Keeps-set_properties step kept)
  Keeps-with_properties (arr xs) = search (turns_rules, Keeps-set_properties step kept)
  Keeps-with_properties (obj fs) = search (turns_rules, Keeps-set_properties step kept)

  Keeps-goto_heading : (value : Json) → IsKept (goto_heading step value)
  Keeps-goto_heading undefined = Keeps-pure tt
  Keeps-goto_heading null = Keeps-pure tt
  Keeps-goto_heading (bool b) = Keeps-pure tt
  Keeps-goto_heading (num n) = Turns-bind _ _ (Keeps-goto (floor n)) λ moved. Keeps-pure tt
  Keeps-goto_heading (str s) = Keeps-pure tt
  Keeps-goto_heading (arr xs) = Keeps-pure tt
  Keeps-goto_heading (obj fs) = Keeps-pure tt

  Keeps-heading_end : IsKept (heading_end step)
  unfolding heading_end
  Keeps-heading_end = search (turns_rules, kept) depth 7

  Keeps-insert_body : (body : String) (point : Number) → IsKept (insert_body step body point)
  unfolding insert_body
  Keeps-insert_body body point = search (turns_rules, kept) depth 8

  Keeps-if_body : (value : Json) (point : Number) → IsKept (if_body step value point)
  Keeps-if_body undefined point = Keeps-pure point
  Keeps-if_body null point = Keeps-pure point
  Keeps-if_body (bool b) point = Keeps-pure point
  Keeps-if_body (num n) point = Keeps-pure point
  Keeps-if_body (str s) point = Keeps-insert_body s point
  Keeps-if_body (arr xs) point = Keeps-pure point
  Keeps-if_body (obj fs) point = Keeps-pure point

  Keeps-insert_table : (table : Fields) (point : Number) → IsKept (insert_table step table point)
  unfolding insert_table
  Keeps-insert_table table point = search (turns_rules, Keeps-goto, Keeps-command) depth 10

  Keeps-with_table : (value : Json) (point : Number) → IsKept (with_table step value point)
  Keeps-with_table undefined point = Keeps-pure _
  Keeps-with_table null point = search (turns_rules, Keeps-insert_table)
  Keeps-with_table (bool b) point = search (turns_rules, Keeps-insert_table)
  Keeps-with_table (num n) point = search (turns_rules, Keeps-insert_table)
  Keeps-with_table (str s) point = search (turns_rules, Keeps-insert_table)
  Keeps-with_table (arr xs) point = search (turns_rules, Keeps-insert_table)
  Keeps-with_table (obj fs) point = search (turns_rules, Keeps-insert_table)

  Keeps-insert_source :
      (source : Fields) (point : Number) → IsKept (insert_source step source point)
  unfolding insert_source
  Keeps-insert_source source point = search (turns_rules, Keeps-goto, Keeps-command) depth 8

  Keeps-finish_section :
      (id : String) (args : Fields) (c : Content) (babel : Option Fields)
      → IsKept (finish_section step id args c babel)
  unfolding finish_section
  Keeps-finish_section id args c babel =
      search (turns_rules, Keeps-validate_org step kept, Keeps-commit_checkpoint step kept) depth 8

  Keeps-evaluate_section :
      (id : String) (args : Fields) (asked : Bool) (source : Fields) (c : Content)
      (validation : Fields)
      → IsKept (evaluate_section step id args asked source c validation)
  unfolding evaluate_section run_babel
  Keeps-evaluate_section id args asked source c validation =
      Turns-bind _ _ (search (turns_rules, kept) depth 7) λ babel.
        Turns-bind _ _ (Keeps-reads _) λ stopped.
          Turns-elim stopped _ _ (Keeps-finish_section id args c babel) (λ why. Keeps-pure _)

  Keeps-section_content :
      (args section : Fields) (source : Json) (title : String) (level : Number) (placement : String)
      → IsKept (section_content step args section source title level placement)
  unfolding section_content
  Keeps-section_content args section source title level placement =
      search
        (
          turns_rules, Keeps-create_heading, Keeps-with_properties, Keeps-goto_heading,
          Keeps-heading_end, Keeps-if_body, Keeps-with_table, Keeps-insert_source,
        )
        depth 10

  Keeps-build_body :
      (id : String) (args section : Fields) (source : Json) (title : String) (level : Number)
      (placement : String)
      → IsKept (build_body step id args section source title level placement)
  unfolding build_body
  Keeps-build_body id args section source title level placement =
      search
        (turns_rules, Keeps-section_content, Keeps-validate_org step kept, Keeps-evaluate_section)

  pub Keeps-workflow_org_build_section :
      (e : EmacsSession) (args : Fields) → IsKept (workflow_org_build_section step e args)
  unfolding workflow_org_build_section
  Keeps-workflow_org_build_section e args =
      search
        (
          turns_rules,
          Keeps-if_object,
          Keeps-create_checkpoint step kept,
          Keeps-transaction step kept,
          Keeps-build_body,
        )
        depth 16
