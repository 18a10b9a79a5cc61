-- ===== src/Sessions/Lifetime.antt =====
-- When a session can be used, and what becomes of it when it cannot.
use emacs_llvm.Base.{
  ℕ, ◌+◌, ◌-◌, ◌≤◌, ◌<◌, ◌≡◌, ◌≢◌, ◌↔◌, refl, sym, ap, ◌∙◌, String, true, none, some, arith,
  eq_refl, if◌then◌else◌, Option-cases, inl, inr, ltb,
}
use emacs_llvm.Base.Map.{get, set, get-set, get-delete}
use emacs_llvm.Protocol.Errors.{Result, ok, err}
use emacs_llvm.Sessions.{
  EmacsSession, SessionManager, SessionOpenInput, ResolvedTarget, session_target, new_id, opened,
  open_session, close, is_expired, used, require_mutable, update_found, update_target,
  expired_session,
}
use emacs_llvm.Sessions.Invariant.{IsValid, owners_after_lem, require_mutable_found}

-- Who is handed out.
pub require_mutable_ok :
    (id : String) (now stamp : ℕ) (m : SessionManager) (session : EmacsSession)
    → ((require_mutable id now stamp m).0 ≡ ok session) ↔ (
        (old : EmacsSession) × (get id m.sessions ≡ some old)
        × (now - old.last_used_at ≤ m.ttl_ms)
        × (session ≡ used stamp old))
unfolding require_mutable
require_mutable_ok id now stamp m session = elim (Option-cases (get id m.sessions)) [
  | inl missing ↦ (
    λ e. cc (rw (missing, require_mutable) at e),
    λ (old, found, young, same). cc (sym missing ∙ found),
  )
  | inr (old, found) ↦ (
    λ e. let e' = rw (found, require_mutable) at e in (old, found, ground arith, ground arith),
    λ (old', found', young, same). rw (found, require_mutable) (ground arith),
  )
]

require_mutable_stored :
    (id : String) (now stamp : ℕ) (m : SessionManager) (session : EmacsSession)
    → (require_mutable id now stamp m).0 ≡ ok session
    → (require_mutable id now stamp m).1 ≡ record m { sessions = set id session m.sessions }
unfolding require_mutable
require_mutable_stored id now stamp m session h = elim (Option-cases (get id m.sessions)) [
  | inl missing ↦ cc (rw (missing, require_mutable) at h)
  | inr (old, found) ↦
      let h' = rw (found, require_mutable) at h in rw (found, require_mutable) (ground (arith, h'))
]

-- A session is handed out exactly if it stands in the manager and its last use is no longer ago
-- than the time to live: it is then the one that stands there with the stamp as the time of its last
-- use, and the manager afterwards has it in the place of the old one, and is otherwise as it was.
pub require_mutable_iff :
    (id : String) (now stamp : ℕ) (m m' : SessionManager) (session : EmacsSession)
    → (require_mutable id now stamp m ≡ (ok session, m')) ↔ (
        (old : EmacsSession) × (get id m.sessions ≡ some old)
        × (now - old.last_used_at ≤ m.ttl_ms)
        × (session ≡ record old { last_used_at = stamp })
        × (m' ≡ record m { sessions = set id session m.sessions }))
require_mutable_iff id now stamp m m' session = (
  λ e.
      let handed : (require_mutable id now stamp m).0 ≡ ok session = ap (λ r. r.0) e in
      let (old, found, young, same) = (require_mutable_ok id now stamp m session).0 handed in
      (
        old,
        found,
        young,
        same,
        sym (ap (λ r. r.1) e) ∙ require_mutable_stored id now stamp m session handed,
      ),
  λ (old, found, young, same, after).
      let handed = (require_mutable_ok id now stamp m session).1 (old, found, young, same) in
      pair_eq handed (require_mutable_stored id now stamp m session handed ∙ sym after),
)
  where
    pair_eq :
        {r : Result EmacsSession × SessionManager} {a : Result EmacsSession} {n : SessionManager}
        → r.0 ≡ a
        → r.1 ≡ n
        → r ≡ (a, n)
    pair_eq e k = cc

-- A session that was opened is handed out until the time to live has passed since then.
require_mutable-open_session :
    (input : SessionOpenInput) (uuid : String) (opened_at now stamp : ℕ) (m : SessionManager)
    → let m' = (open_session input uuid opened_at m).1 in
      (require_mutable (new_id uuid) now stamp m').0 ≡ (
        if ltb m.ttl_ms (now - opened_at)
        then expired_session (new_id uuid)
        else ok (used stamp (opened input uuid opened_at)))
unfolding open_session require_mutable
require_mutable-open_session input uuid opened_at now stamp m =
    let id = new_id uuid in
    let found : get id (set id (opened input uuid opened_at) m.sessions)
        ≡ some (opened input uuid opened_at) =
      get-set id id (opened input uuid opened_at) m.sessions ∙ rw (eq_refl id) in
    rw (found, require_mutable) (ground arith)

close_ttl : (id : String) (m : SessionManager) → (close id m).1.ttl_ms ≡ m.ttl_ms
unfolding close
close_ttl id m = ground arith

require_mutable_ttl :
    (id : String) (now stamp : ℕ) (m : SessionManager)
    → (require_mutable id now stamp m).1.ttl_ms ≡ m.ttl_ms
unfolding require_mutable
require_mutable_ttl id now stamp m = ground (arith, close_ttl id m)

-- A session that was handed out is handed out again until the time to live has passed since the
-- stamp of that use.
require_mutable_again :
    (id : String) (now stamp later stamp' : ℕ) (m : SessionManager) (session : EmacsSession)
    → (require_mutable id now stamp m).0 ≡ ok session
    → later ≤ stamp + m.ttl_ms
    → (require_mutable id later stamp' (require_mutable id now stamp m).1).0
      ≡ ok (used stamp' session)
require_mutable_again id now stamp later stamp' m session e early =
    let m' = (require_mutable id now stamp m).1 in
    let (old, found, young, same) = (require_mutable_ok id now stamp m session).0 e in
    let stamped : session.last_used_at ≡ stamp = ap (λ (s : EmacsSession). s.last_used_at) same in
    (require_mutable_ok id later stamp' m' (used stamp' session)).1 (
      session,
      (require_mutable_found id now stamp m session e).0,
      omega (arith, require_mutable_ttl id now stamp m),
      refl,
    )

-- In a valid manager an expired session is refused, and its entry goes and with it its mutation
-- lease.
pub require_mutable_expired :
    (id : String) (now stamp : ℕ) (m : SessionManager) (old : EmacsSession)
    → IsValid m
    → get id m.sessions ≡ some old
    → m.ttl_ms < now - old.last_used_at
    → let r = require_mutable id now stamp m in
      (r.0 ≡ expired_session id)
      × (get id r.1.sessions ≡ none)
      × (get old.instance_id r.1.mutation_owners ≢ some id)
unfolding require_mutable close
require_mutable_expired id now stamp m old v found late =
    let expired : is_expired m.ttl_ms now old ≡ true = ground arith in
    rw (found, require_mutable, expired, found, close)
      (
        refl,
        ground (arith, get-delete id id m.sessions, eq_refl id),
        λ e. (owners_after_lem id old.instance_id id old m found v e).1 refl,
      )

update_found_ok :
    (id : String) (target : ResolvedTarget) (stamp : ℕ) (r : Result EmacsSession)
    (m : SessionManager) (session : EmacsSession)
    → (update_found id target stamp (r, m)).0 ≡ ok session
    → (old : EmacsSession) × (r ≡ ok old)
      × (session ≡ record old { target = session_target target; last_used_at = stamp })
      × (get id (update_found id target stamp (r, m)).1.sessions ≡ some session)
unfolding update_found
update_found_ok id target stamp (err e) m session h = cc
update_found_ok id target stamp (ok old) m session h =
    let new : EmacsSession = record old { target = session_target target; last_used_at = stamp } in
    (old, refl, ground arith, get-set id id new m.sessions ∙ rw (eq_refl id) (ground arith))

-- Retargeting that succeeds returns what it stores: the session with its whole target replaced and nothing else
-- changed but the time of its last use.
update_target_lem :
    (id : String) (target : ResolvedTarget) (now stamp stamp' : ℕ) (m : SessionManager)
    (session : EmacsSession)
    → (update_target id target now stamp stamp' m).0 ≡ ok session
    → (old : EmacsSession) × (get id m.sessions ≡ some old)
      × (session ≡ record old { target = session_target target; last_used_at = stamp' })
      × (get id (update_target id target now stamp stamp' m).1.sessions ≡ some session)
unfolding update_target
update_target_lem id target now stamp stamp' m session h =
    let r = require_mutable id now stamp m in
    let (mid, got, new, stored) = update_found_ok id target stamp' r.0 r.1 session h in
    let (old, found, young, same) = (require_mutable_ok id now stamp m mid).0 got in
    (
      old,
      found,
      new
          ∙ ap
              (λ (s : EmacsSession). record s {
                target = session_target target;
                last_used_at = stamp';
              })
              same,
      stored,
    )
