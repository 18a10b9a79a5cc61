-- ===== src/Router/Safety/Renames.antt =====
-- Safety of packages/mcp-server/src/tools/toolRouter.ts: the project rename and its
-- actions.
use emacs_llvm.Base.{String, Bool, true, false, some, ◌≡◌, refl, if◌then◌else◌, str_eq}
use emacs_llvm.Base.Json.{Fields, end, at}
use emacs_llvm.Base.Values.{assign, put}
use emacs_llvm.Base.Exec.{lift, reads, ◌>>=◌, ◌>>◌, after}
use emacs_llvm.Base.Exec.Keeps.{
  Keeps, Ends, Holds, Turns-bind, Turns-then, Keeps-lift, Ends-forget, Turns-bind-if,
  Turns-bind-pure,
}
use emacs_llvm.Protocol.Errors.{Result, ok, err}
use emacs_llvm.Sessions.{EmacsSession, SessionManager}
use emacs_llvm.Router.State.{Server, Tool, bridge}
use emacs_llvm.Router.Renames.Members.{
  Yields, result, IsSemantic, prepare_project_rename_symbols-Yields,
}
use emacs_llvm.Router.Mutations.Evaluation.{
  may_mutate, mutating_action, rename_request, project_rename, emacs_project_rename,
}
use emacs_llvm.Router.Safety.{IsSafe, On, Known, Leased, alters, exchange_quiet}
use emacs_llvm.Router.Safety.Reads.{quiet_rules, Keeps-observe_compact, Keeps-set_before}
use emacs_llvm.Router.Safety.Mutations.{Turns-may_mutate, leased_rules}

module _ {A B : Type 0} (Q : B → Type 0) where
  yielded :
      {p : SessionManager → Type 0} (r : Result B) (s : Server) (g : B → Tool A)
      → IsSafe s
      → On p s
      → Yields Q r
      → ((b : B) → Q b → Keeps IsSafe (On p) (g b))
      → Holds IsSafe (On p) (after (after (ok r, s) lift) g)
  unfolding lift
  yielded (ok b) s g i h (result x q) k = (k b q).run s i h
  yielded (err e) s g i h y k = i

  -- What comes after a value that was computed from the state may use what holds of it.
  Keeps-yielded :
      {p : SessionManager → Type 0} (f : Server → Result B) (g : B → Tool A)
      → ((s : Server) → Yields Q (f s))
      → ((b : B) → Q b → Keeps IsSafe (On p) (g b))
      → Keeps IsSafe (On p) ((reads f >>= lift) >>= g)
  unfolding reads ◌>>=◌
  Keeps-yielded {p} f g y k = record { run = λ s i h. yielded (f s) s g i h (y s) k }

module _ {p : SessionManager → Type 0} (args : Fields) (e : EmacsSession) where
  -- The members that are added do not replace the action of the request.
  Keeps-rename_request :
      (action : String) (ms : Fields)
      → mutating_action action ≡ false
      → IsSemantic ms
      → Keeps IsSafe (On p) (rename_request action args e ms)
  unfolding rename_request alters assign put at
  Keeps-rename_request action ms quiet members =
      exchange_quiet (bridge e.instance_id) (some e) "refactor.project_rename" _
        (rw (members.same) quiet)

  Keeps-rename_request_plain :
      (action : String)
      → mutating_action action ≡ false
      → Keeps IsSafe (On p) (rename_request action args e end)
  unfolding rename_request alters assign put at
  Keeps-rename_request_plain action quiet =
      exchange_quiet (bridge e.instance_id) (some e) "refactor.project_rename" _ quiet

  Keeps-project_rename :
      (action : String)
      → mutating_action action ≡ false
      → Keeps IsSafe (On p) (project_rename action args e)
  unfolding project_rename
  Keeps-project_rename action quiet = Turns-bind _ _ (Keeps-lift _) λ u.
      Turns-bind _ _ (Keeps-observe_compact e) λ before. Turns-bind _ _ (Keeps-set_before _) λ v.
        Turns-bind-if (str_eq action "plan") _ _ _
          (Keeps-yielded IsSemantic _ _
            (λ s.
              prepare_project_rename_symbols-Yields s.world.upper s.world.string_from args before)
            (λ ms members.
              Turns-bind _ _ (Keeps-rename_request action ms quiet members)
                λ r. search quiet_rules))
          (Turns-bind-pure end _
            (Turns-bind _ _ (Keeps-rename_request_plain action quiet) λ r. search quiet_rules))

Keeps-project_rename-Leased :
    (action : String) (args : Fields) (e : EmacsSession)
    → Keeps IsSafe (On (Leased e)) (project_rename action args e)
unfolding project_rename rename_request
Keeps-project_rename-Leased action args e = search leased_rules depth 12

rename_by_action :
    (action : String) (args : Fields) (e : EmacsSession) (b : Bool)
    → mutating_action action ≡ b
    → Ends IsSafe
        (On (Known e))
        (if b then may_mutate e >> project_rename action args e else project_rename action args e)
rename_by_action action args e true h =
    Turns-then _ _ (Turns-may_mutate e)
      λ u. Ends-forget _ (Keeps-project_rename-Leased action args e)
rename_by_action action args e false h = Ends-forget _ (Keeps-project_rename args e action h)

pub Ends-emacs_project_rename :
    (args : Fields) (e : EmacsSession) → Ends IsSafe (On (Known e)) (emacs_project_rename args e)
unfolding emacs_project_rename
Ends-emacs_project_rename args e =
    Turns-bind _ _ (Keeps-lift _)
      λ action. Turns-bind _ _ (Keeps-lift _) λ u. rename_by_action action args e _ refl
