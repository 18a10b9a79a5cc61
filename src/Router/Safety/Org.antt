-- ===== src/Router/Safety/Org.antt =====
-- Safety of packages/mcp-server/src/tools/toolRouter.ts: the workflow
-- `org_rewrite_subtree`, by its steps.
use emacs_llvm.Base.{String, List, [], ◌∷◌}
use emacs_llvm.Base.Json.{Json, undefined, null, bool, num, str, arr, obj, Fields, end, field}
use emacs_llvm.Base.Exec.Keeps.{turns_rules, Turns-bind, Keeps-lift, Keeps-pure}
use emacs_llvm.Sessions.{EmacsSession}
use emacs_llvm.Router.Workflow.Steps.{Step}
use emacs_llvm.Router.Workflow.Org.{
  Progress, observe_org, validate_org, run_command, set_text, set_todo, set_tags, set_property,
  set_properties, move_subtree, if_moved, if_object, rewrite_commands, rewrite_body,
  workflow_org_rewrite_subtree,
}
use emacs_llvm.Router.Workflow.Section.{command}
use emacs_llvm.Router.Safety.Workflows.{
  IsKept, Keeps-create_checkpoint, Keeps-transaction, Keeps-commit_checkpoint,
}

pub Keeps-if_object : (name : String) (value : Json) → IsKept (if_object name value)
Keeps-if_object name undefined = Keeps-pure tt
Keeps-if_object name null = search turns_rules
Keeps-if_object name (bool b) = search turns_rules
Keeps-if_object name (num n) = search turns_rules
Keeps-if_object name (str s) = search turns_rules
Keeps-if_object name (arr xs) = search turns_rules
Keeps-if_object name (obj fs) = search turns_rules

module _ (step : Step) (kept : (name : String) (args : Fields) → IsKept (step name args)) where
  Keeps-observe_org : IsKept (observe_org step)
  unfolding observe_org
  Keeps-observe_org = search (turns_rules, kept)

  pub Keeps-validate_org : (args : Fields) → IsKept (validate_org step args)
  unfolding validate_org
  Keeps-validate_org args = search (turns_rules, kept)

  Keeps-run_command :
      (args : Fields) (command : String) (arguments : List Json) (p : Progress)
      → IsKept (run_command step args command arguments p)
  unfolding run_command
  Keeps-run_command args command arguments p = search (turns_rules, kept)

  Keeps-set_text :
      (args : Fields) (command : String) (value : Json) (p : Progress)
      → IsKept (set_text step args command value p)
  Keeps-set_text args command undefined p = Keeps-pure p
  Keeps-set_text args command null p = Keeps-pure p
  Keeps-set_text args command (bool b) p = Keeps-pure p
  Keeps-set_text args command (num n) p = Keeps-pure p
  Keeps-set_text args command (str s) p = Keeps-run_command args command (str s ∷ []) p
  Keeps-set_text args command (arr xs) p = Keeps-pure p
  Keeps-set_text args command (obj fs) p = Keeps-pure p

  Keeps-set_todo : (args rewrite : Fields) (p : Progress) → IsKept (set_todo step args rewrite p)
  unfolding set_todo
  Keeps-set_todo args rewrite p = search (turns_rules, Keeps-run_command)

  Keeps-set_tags :
      (args : Fields) (value : Json) (p : Progress) → IsKept (set_tags step args value p)
  Keeps-set_tags args undefined p = Keeps-pure p
  Keeps-set_tags args null p = Keeps-lift _
  Keeps-set_tags args (bool b) p = Keeps-lift _
  Keeps-set_tags args (num n) p = Keeps-lift _
  Keeps-set_tags args (str s) p = Keeps-lift _
  Keeps-set_tags args (arr xs) p = Keeps-run_command args _ _ p
  Keeps-set_tags args (obj fs) p = Keeps-lift _

  Keeps-set_property :
      (args : Fields) (property : String) (value : Json) (p : Progress)
      → IsKept (set_property step args property value p)
  Keeps-set_property args property undefined p = Keeps-lift _
  Keeps-set_property args property null p = Keeps-lift _
  Keeps-set_property args property (bool b) p = Keeps-lift _
  Keeps-set_property args property (num n) p = Keeps-lift _
  Keeps-set_property args property (str s) p = Keeps-run_command args _ _ p
  Keeps-set_property args property (arr xs) p = Keeps-lift _
  Keeps-set_property args property (obj fs) p = Keeps-lift _

  pub Keeps-set_properties :
      (args properties : Fields) (p : Progress) → IsKept (set_properties step args properties p)
  unfolding set_properties
  Keeps-set_properties args end p = Keeps-pure p
  Keeps-set_properties args (field property value more) p =
      Turns-bind _ _ (Keeps-set_property args property value p)
        λ q. Keeps-set_properties args more q

  Keeps-move_subtree : (args move : Fields) (p : Progress) → IsKept (move_subtree step args move p)
  unfolding move_subtree
  Keeps-move_subtree args move p = search (turns_rules, Keeps-run_command)

  Keeps-if_moved :
      (args : Fields) (value : Json) (p : Progress) → IsKept (if_moved step args value p)
  Keeps-if_moved args undefined p = Keeps-pure p
  Keeps-if_moved args null p = Keeps-pure p
  Keeps-if_moved args (bool b) p = Keeps-pure p
  Keeps-if_moved args (num n) p = Keeps-pure p
  Keeps-if_moved args (str s) p = Keeps-pure p
  Keeps-if_moved args (arr xs) p = Keeps-pure p
  Keeps-if_moved args (obj fs) p = Keeps-move_subtree args fs p

  Keeps-rewrite_commands : (args rewrite : Fields) → IsKept (rewrite_commands step args rewrite)
  unfolding rewrite_commands
  Keeps-rewrite_commands args rewrite =
      search
        (
          turns_rules, Keeps-set_text, Keeps-set_todo, Keeps-set_tags, Keeps-set_properties,
          Keeps-if_moved,
        )
        depth 8

  Keeps-rewrite_body :
      (id : String) (args rewrite : Fields) → IsKept (rewrite_body step id args rewrite)
  unfolding rewrite_body
  Keeps-rewrite_body id args rewrite =
      search
        (turns_rules, Keeps-rewrite_commands, Keeps-validate_org, Keeps-commit_checkpoint step kept)
        depth 7

  pub Keeps-workflow_org_rewrite_subtree :
      (e : EmacsSession) (args : Fields) → IsKept (workflow_org_rewrite_subtree step e args)
  unfolding workflow_org_rewrite_subtree
  Keeps-workflow_org_rewrite_subtree e args =
      search
        (
          turns_rules,
          Keeps-observe_org,
          Keeps-if_object,
          Keeps-create_checkpoint step kept,
          Keeps-transaction step kept,
          Keeps-rewrite_body,
        )
        depth 14
