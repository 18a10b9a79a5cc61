-- ===== src/Sessions/Named.antt =====
-- The part of the invariant of the session manager that asks nothing of new identifiers: each session
-- stands under its own.
use emacs_llvm.Base.{
  ℕ, String, some, ◌≡◌, refl, ◌∙◌, arith, eq_iff, Option-cases, Bool-cases, inl, inr,
}
use emacs_llvm.Base.Map.{get, set, get-set, get-delete}
use emacs_llvm.Protocol.Errors.{Result, ok, err}
use emacs_llvm.Sessions.{
  EmacsSession, SessionManager, SessionOpenInput, ResolvedTarget, opened, new_id, open_session,
  used, is_expired, require_mutable, update_found, update_target, acquire_found, acquire_mutation,
  close, session_target,
}
use emacs_llvm.Sessions.Invariant.{require_mutable_found}

abbrev pub Named : SessionManager → Type 0
Named m = (id : String) (e : EmacsSession) → get id m.sessions ≡ some e → e.session_id ≡ id

-- A session is put under its own identifier.
set-Named :
    (id : String) (e : EmacsSession) (m : SessionManager)
    → e.session_id ≡ id
    → Named m
    → Named (record m { sessions = set id e m.sessions })
set-Named id e m own named j x found =
    ground (arith, get-set id j e m.sessions, eq_iff id j, named j x)

pub close-Named : (id : String) (m : SessionManager) → Named m → Named (close id m).1
unfolding close
close-Named id m named = elim (Option-cases (get id m.sessions)) [
  | inl missing ↦ rw (missing, close) named
  | inr (e, found) ↦
      rw (found, close)
        (λ j x at. ground (arith, get-delete id j m.sessions, eq_iff id j, named j x))
]

pub require_mutable-Named :
    (id : String) (at_check at_use : ℕ) (m : SessionManager)
    → Named m
    → Named (require_mutable id at_check at_use m).1
unfolding require_mutable
require_mutable-Named id at_check at_use m named = elim (Option-cases (get id m.sessions)) [
  | inl missing ↦ rw (missing, require_mutable) named
  | inr (e, found) ↦ elim (Bool-cases (is_expired m.ttl_ms at_check e)) [
    | inl old ↦ rw (found, require_mutable, old) (close-Named id m named)
    | inr young ↦
        rw (found, require_mutable, young) (set-Named id (used at_use e) m (named id e found) named)
  ]
]

pub open_session-Named :
    (input : SessionOpenInput) (uuid : String) (now : ℕ) (m : SessionManager)
    → Named m
    → Named (open_session input uuid now m).1
unfolding open_session
open_session-Named input uuid now m named =
    set-Named (new_id uuid) (opened input uuid now) m refl named

update_found-Named :
    (id : String) (target : ResolvedTarget) (stamp : ℕ) (r : Result EmacsSession)
    (m : SessionManager)
    → ((e : EmacsSession) → r ≡ ok e → get id m.sessions ≡ some e)
    → Named m
    → Named (update_found id target stamp (r, m)).1
unfolding update_found
update_found-Named id target stamp (err e) m there named = named
update_found-Named id target stamp (ok e) m there named =
    set-Named id (record e { target = session_target target; last_used_at = stamp }) m
      (named id e (there e refl)) named

pub update_target-Named :
    (id : String) (target : ResolvedTarget) (at_check at_use at_change : ℕ) (m : SessionManager)
    → Named m
    → Named (update_target id target at_check at_use at_change m).1
unfolding update_target
update_target-Named id target at_check at_use at_change m named =
    let r = require_mutable id at_check at_use m in
    update_found-Named id target at_change r.0 r.1
      (λ e found. (require_mutable_found id at_check at_use m e found).0)
      (require_mutable-Named id at_check at_use m named)

acquire_found-Named :
    (id : String) (r : Result EmacsSession) (m : SessionManager)
    → Named m
    → Named (acquire_found id (r, m)).1
unfolding acquire_found
acquire_found-Named id (err e) m named = named
acquire_found-Named id (ok e) m named = ground (arith, named)

pub acquire_mutation-Named :
    (id : String) (at_check at_use : ℕ) (m : SessionManager)
    → Named m
    → Named (acquire_mutation id at_check at_use m).1
unfolding acquire_mutation
acquire_mutation-Named id at_check at_use m named =
    let r = require_mutable id at_check at_use m in
    acquire_found-Named id r.0 r.1 (require_mutable-Named id at_check at_use m named)

-- The leases that stand while a session is looked up, or its target changed.
update_found_owners :
    (id : String) (target : ResolvedTarget) (stamp : ℕ) (r : Result EmacsSession)
    (m : SessionManager)
    → (update_found id target stamp (r, m)).1.mutation_owners ≡ m.mutation_owners
unfolding update_found
update_found_owners id target stamp (err e) m = refl
update_found_owners id target stamp (ok e) m = refl

update_found_session :
    (id : String) (target : ResolvedTarget) (stamp : ℕ) (r : Result EmacsSession)
    (m : SessionManager) (e : EmacsSession)
    → (update_found id target stamp (r, m)).0 ≡ ok e
    → (x : EmacsSession) × (r ≡ ok x)
unfolding update_found
update_found_session id target stamp (err x) m e h = cc
update_found_session id target stamp (ok x) m e h = (x, refl)

pub update_target_owners :
    (id : String) (target : ResolvedTarget) (at_check at_use at_change : ℕ) (m : SessionManager)
    (e : EmacsSession)
    → (update_target id target at_check at_use at_change m).0 ≡ ok e
    → (update_target id target at_check at_use at_change m).1.mutation_owners ≡ m.mutation_owners
unfolding update_target
update_target_owners id target at_check at_use at_change m e h =
    let r = require_mutable id at_check at_use m in
    let (x, got) = update_found_session id target at_change r.0 r.1 e h in
    update_found_owners id target at_change r.0 r.1
    ∙ (require_mutable_found id at_check at_use m x got).1
