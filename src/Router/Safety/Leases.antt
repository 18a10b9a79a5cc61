-- ===== src/Router/Safety/Leases.antt =====
-- Safety of packages/mcp-server/src/tools/toolRouter.ts: the calls of the session
-- manager.
use emacs_llvm.Base.{ℕ, String, ◌≡◌, refl, sym, ap, ◌∙◌}
use emacs_llvm.Base.Map.{get}
use emacs_llvm.Base.Json.{Json}
use emacs_llvm.Base.Exec.Keeps.{Turns, Keeps, Holds, Turns-bind, Keeps-reads}
use emacs_llvm.Base.Exec.{◌>>=◌, after}
use emacs_llvm.Protocol.Errors.{Result, ok, err}
use emacs_llvm.Sessions.{EmacsSession, SessionManager, require_mutable, acquire_mutation}
use emacs_llvm.Sessions.Named.{
  Named, require_mutable-Named, update_target-Named, acquire_mutation-Named, update_target_owners,
}
use emacs_llvm.Sessions.Invariant.{require_mutable_found}
use emacs_llvm.Sessions.Leases.{acquire_mutation_granted}
use emacs_llvm.Policy.{assert_mutation}
use emacs_llvm.Router.State.{Server, Tool, with_sessions, current_session, acquire, retarget, now}
use emacs_llvm.Router.Safety.{IsSafe, On, Known, Leased}
use emacs_llvm.Router.Safety.Reads.{Keeps-now}

managed :
    {A : Type 0} (q : SessionManager → Type 0) (r : Result A) (s : Server)
    → IsSafe s
    → ((a : A) → r ≡ ok a → q s.sessions)
    → Holds IsSafe (On q) (r, s)
managed q (ok a) s i h = (i, record { there = h a refl })
managed q (err e) s i h = i

-- A call of the session manager, from what it does to the manager.
pub Turns-with_sessions :
    {A : Type 0} {p q : SessionManager → Type 0} (f : SessionManager → Result A × SessionManager)
    → ((m : SessionManager) → Named m → Named (f m).1)
    → ((m : SessionManager) (a : A) → p m → (f m).0 ≡ ok a → q (f m).1)
    → Turns IsSafe (On p) (On q) (with_sessions f)
unfolding with_sessions
Turns-with_sessions {A} {p} {q} f names turns = record {
  run = λ s i h.
      managed q (f s.sessions).0 _
        (record { named = names s.sessions i.named; permitted = i.permitted })
        (λ a e. turns s.sessions a h.there e);
}

-- Looking a session up takes no lease away.
pub Keeps-current_session :
    (e : EmacsSession) (id : String) → Keeps IsSafe (On (Leased e)) (current_session id)
unfolding current_session
Keeps-current_session e id = Turns-bind _ _ Keeps-now λ at_check. Turns-bind _ _ Keeps-now λ at_use.
    Turns-with_sessions _ (require_mutable-Named id at_check at_use) (λ m x held found. (
      held.0,
      ap (get e.instance_id) ((require_mutable_found id at_check at_use m x found).1) ∙ held.1,
    ))

pub Keeps-retarget :
    (e x : EmacsSession) (value : Json) → Keeps IsSafe (On (Leased e)) (retarget x value)
unfolding retarget
Keeps-retarget e x value = Turns-bind _ _ (Keeps-reads _) λ target.
    Turns-bind _ _ Keeps-now λ at_check. Turns-bind _ _ Keeps-now λ at_use.
      Turns-bind _ _ Keeps-now λ at_change.
        Turns-with_sessions _ (update_target-Named x.session_id target at_check at_use at_change)
          (λ m y held found. (
            held.0,
            ap (get e.instance_id)
                  (update_target_owners x.session_id target at_check at_use at_change m y found)
                ∙ held.1,
          ))

acquired :
    (e : EmacsSession) (at_check at_use : ℕ) (m : SessionManager) (u : Unit {0})
    → assert_mutation e ≡ ok tt
    → Known e m
    → (acquire_mutation e.session_id at_check at_use m).0 ≡ ok u
    → Leased e (acquire_mutation e.session_id at_check at_use m).1
acquired e at_check at_use m u may (x, found, same) granted =
    let (y, there, young, held) = acquire_mutation_granted e.session_id at_check at_use m granted in
    (
      may,
      ap (λ (i : String). get i (acquire_mutation e.session_id at_check at_use m).1.mutation_owners)
            (sym same ∙ cc)
          ∙ held,
    )

-- A session that is known and may change something has the lease once it is granted.
pub Turns-acquire :
    (e : EmacsSession)
    → assert_mutation e ≡ ok tt
    → Turns IsSafe (On (Known e)) (On (Leased e)) (acquire e)
unfolding acquire
Turns-acquire e may = Turns-bind _ _ Keeps-now λ at_check. Turns-bind _ _ Keeps-now λ at_use.
    Turns-with_sessions _ (acquire_mutation-Named e.session_id at_check at_use)
      (λ m u known granted. acquired e at_check at_use m u may known granted)

known :
    (id : String) (at_check at_use : ℕ) (m : SessionManager) (e : EmacsSession)
    → Named m
    → (require_mutable id at_check at_use m).0 ≡ ok e
    → Known e (require_mutable id at_check at_use m).1
known id at_check at_use m e named got =
    let m' = (require_mutable id at_check at_use m).1 in
    let there = (require_mutable_found id at_check at_use m e got).0 in
    let own = require_mutable-Named id at_check at_use m named id e there in
    (e, ap (λ i. get i m'.sessions) own ∙ there, refl)

with_found :
    {A : Type 0} (Q : Server → Type 0) (r : Result EmacsSession) (s : Server)
    (f : EmacsSession → Tool A)
    → IsSafe s
    → ((e : EmacsSession) → r ≡ ok e → Known e s.sessions)
    → ((e : EmacsSession) → Turns IsSafe (On (Known e)) Q (f e))
    → Holds IsSafe Q (after (r, s) f)
with_found Q (ok e) s f i h k = (k e).run s i (record { there = h e refl })
with_found Q (err e) s f i h k = i

-- What comes after looking a session up may use that the session is known.
pub Turns-found :
    {A : Type 0} {P Q : Server → Type 0} (id : String) (f : EmacsSession → Tool A)
    → ((e : EmacsSession) → Turns IsSafe (On (Known e)) Q (f e))
    → Turns IsSafe P Q (current_session id >>= f)
unfolding current_session with_sessions now ◌>>=◌
Turns-found {A} {P} {Q} id f k = record {
  run = λ s i h.
      with_found Q _ _ f
        (record {
          named = require_mutable-Named id _ _ s.sessions i.named;
          permitted = i.permitted;
        })
        (λ e got. known id _ _ s.sessions e i.named got) k;
}
