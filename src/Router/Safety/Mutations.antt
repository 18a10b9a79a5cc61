-- ===== src/Router/Safety/Mutations.antt =====
-- Safety of packages/mcp-server/src/tools/toolRouter.ts: the tools that change something
-- in Emacs.
use emacs_llvm.Base.{String, refl, ◌≡◌, some}
use emacs_llvm.Base.Json.{Json, Fields, at}
use emacs_llvm.Base.Values.{object_of}
use emacs_llvm.Base.Exec.Keeps.{
  Turns, Keeps, Ends, Holds, Turns-bind, Turns-then, Turns-bind-lift, Turns-outcome, Turns-elim,
  Keeps-lift, Keeps-reads, Keeps-pure, Ends-forget,
}
use emacs_llvm.Sessions.{EmacsSession, SessionManager}
use emacs_llvm.Router.State.{InstanceRecord, Server, Tool, request}
use emacs_llvm.Router.Arguments.{native_target}
use emacs_llvm.Router.Registry.{live_of, choose, find_record}
use emacs_llvm.Router.Registry.Choice.{choose-IsLive}
use emacs_llvm.Base.Exec.{reads, lift, ◌>>=◌, after}
use emacs_llvm.Protocol.Errors.{Result, ok, err}
use emacs_llvm.Router.Mutations.{
  follow_target, native_check, send_native, send_internal, emacs_key_sequence, emacs_command,
}
use emacs_llvm.Router.Mutations.Evaluation.{may_mutate, may_write, emacs_eval}
use emacs_llvm.Router.Safety.{
  IsSafe, On, Known, Leased, LeasedAt, alters, exchange-Leased, exchange-LeasedAt,
}
use emacs_llvm.Router.Safety.Reads.{quiet_rules, Keeps-find_record, Keeps-mark_mutation}
use emacs_llvm.Router.Safety.Leases.{Turns-acquire, Keeps-current_session, Keeps-retarget}

pub Turns-may_mutate :
    (e : EmacsSession) → Turns IsSafe (On (Known e)) (On (Leased e)) (may_mutate e)
unfolding may_mutate
Turns-may_mutate e =
    Turns-bind _ _ Keeps-mark_mutation λ u. Turns-bind-lift _ _ λ v may. Turns-acquire e may

pub Keeps-may_write :
    {p : SessionManager → Type 0} (e : EmacsSession) → Keeps IsSafe (On p) (may_write e)
unfolding may_write
Keeps-may_write e = search quiet_rules

pub Keeps-request :
    (e : EmacsSession) (method : String) (params : Json)
    → Keeps IsSafe (On (Leased e)) (request e method params)
Keeps-request e method params = exchange-Leased e method params

pub ruleset leased_rules = (quiet_rules, Keeps-may_write, Keeps-request)

-- What follows the choice of the session's instance may use that it was found.
Turns-find_record :
    {A : Type 0} {Q : Server → Type 0} (e : EmacsSession) (rest : InstanceRecord → Tool A)
    → ((r : InstanceRecord) → Turns IsSafe (LeasedAt e r) Q (rest r))
    → Turns IsSafe (On (Leased e)) Q (find_record (some e.instance_id) >>= rest)
unfolding find_record ◌>>=◌ reads lift
Turns-find_record {A} {Q} e rest each = record {
  run =
      λ s i h. chosen s i h (choose (some e.instance_id) (live_of (s.world.discover s.sent))) refl;
}
  where
    chosen :
        (s : Server)
        → IsSafe s
        → On (Leased e) s
        → (r : Result InstanceRecord)
        → choose (some e.instance_id) (live_of (s.world.discover s.sent)) ≡ r
        → Holds IsSafe Q (after (r, s) rest)
    chosen s i h (err x) c = i
    chosen s i h (ok r) c =
        let (live, own) = choose-IsLive e.instance_id (s.world.discover s.sent) r c in
        (each r).run s i (record { held = h.there; found = (s.sent, live, own) })

pub Ends-emacs_eval :
    (args : Fields) (e : EmacsSession) → Ends IsSafe (On (Known e)) (emacs_eval args e)
unfolding emacs_eval alters
Ends-emacs_eval args e =
    Turns-then _ _ (Turns-may_mutate e) (λ u. Ends-forget _ (search leased_rules depth 20))

-- The tools whose steps, behind the lease, are all alike.
module _ (args : Fields) (e : EmacsSession) where
  Keeps-follow_target : (result : Json) → Keeps IsSafe (On (Leased e)) (follow_target result e)
  unfolding follow_target
  Keeps-follow_target result = Turns-bind _ _ (Keeps-lift _) λ target.
      Turns-elim (object_of target) _ _ (Keeps-pure tt)
        (λ fs. search (leased_rules, Keeps-retarget e))

  Keeps-send_internal : Keeps IsSafe (On (Leased e)) (send_internal args e)
  unfolding send_internal alters
  Keeps-send_internal = search (leased_rules, Keeps-follow_target, Keeps-current_session e) depth 12

  Ends-native_check : (result : Json) → Keeps IsSafe (On (Leased e)) (native_check args e result)
  unfolding alters
  Ends-native_check result = search leased_rules depth 8

  Ends-send_native : Ends IsSafe (On (Leased e)) (send_native args e)
  unfolding send_native alters native_target at
  Ends-send_native = Turns-find_record e _ λ found. Turns-bind _ _ (Keeps-reads _) λ mapped.
      Turns-bind _ _ (Keeps-lift _) λ events.
        Turns-then _ _ (exchange-LeasedAt e found _ _ refl) λ result.
          Turns-then _ _
            (Turns-outcome {R = On (λ m. Unit)} _ (λ s. record { there = tt })
              (Ends-forget _ (Ends-native_check result)))
            λ checked. Ends-forget _ (search quiet_rules depth 8)

  pub Ends-emacs_command : Ends IsSafe (On (Known e)) (emacs_command args e)
  unfolding emacs_command alters
  Ends-emacs_command = Turns-then _ _ (Turns-may_mutate e) (λ u.
      Ends-forget _ (search (leased_rules, Keeps-follow_target, Keeps-current_session e) depth 20))

  pub Ends-emacs_key_sequence : Ends IsSafe (On (Known e)) (emacs_key_sequence args e)
  unfolding emacs_key_sequence
  Ends-emacs_key_sequence =
      Turns-then _ _ (Turns-may_mutate e)
        (λ u. search (leased_rules, Keeps-send_internal, Ends-send_native) depth 20)
