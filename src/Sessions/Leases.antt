-- ===== src/Sessions/Leases.antt =====
-- The mutation lease: at most one session at a time may change an Emacs instance.
use emacs_llvm.Base.{
  ℕ, ◌-◌, ◌≤◌, ◌≡◌, ◌≢◌, refl, sym, ap, ◌∙◌, String, true, false, some, arith, eq_iff, eq_refl,
}
use emacs_llvm.Base.Map.{get, get-set}
use emacs_llvm.Protocol.Errors.{Result, ok, err}
use emacs_llvm.Sessions.{
  EmacsSession, SessionManager, is_expired, require_mutable, acquire_found, acquire_mutation,
  blocks, locked,
}
use emacs_llvm.Sessions.Lifetime.{require_mutable_ok}

acquire_found_ok :
    (id : String) (r : Result EmacsSession) (m : SessionManager)
    → (acquire_found id (r, m)).0 ≡ ok tt
    → (session : EmacsSession) × (r ≡ ok session)
      × (get session.instance_id (acquire_found id (r, m)).1.mutation_owners ≡ some id)
unfolding acquire_found
acquire_found_ok id (err e) m h = cc
acquire_found_ok id (ok session) m h = (
  session,
  refl,
  ground (
    arith,
    get-set session.instance_id session.instance_id id m.mutation_owners,
    eq_refl session.instance_id,
  ),
)

-- A session that is granted the lease stands in the manager, has not expired, and holds the lease of
-- its instance afterwards.
pub acquire_mutation_granted :
    (id : String) (now stamp : ℕ) (m : SessionManager)
    → (acquire_mutation id now stamp m).0 ≡ ok tt
    → (session : EmacsSession) × (get id m.sessions ≡ some session)
      × (now - session.last_used_at ≤ m.ttl_ms)
      × (get session.instance_id (acquire_mutation id now stamp m).1.mutation_owners ≡ some id)
unfolding acquire_mutation
acquire_mutation_granted id now stamp m h =
    let r = require_mutable id now stamp m in
    let (session, got, held) = acquire_found_ok id r.0 r.1 h in
    let (old, found, young, same) = (require_mutable_ok id now stamp m session).0 got in
    (
      old,
      found,
      young,
      ap (λ (i : String). get i (acquire_found id r).1.mutation_owners)
            (sym (ap (λ (s : EmacsSession). s.instance_id) same))
          ∙ held,
    )

-- While another session, by an identifier that is not empty, holds the lease of the instance, a
-- session that has not expired is refused, and the leases stay as they are. Nothing is asked of the
-- holder: it may have expired.
pub acquire_mutation_refused :
    (id owner : String) (now stamp : ℕ) (m : SessionManager) (session : EmacsSession)
    → get id m.sessions ≡ some session
    → now - session.last_used_at ≤ m.ttl_ms
    → get session.instance_id m.mutation_owners ≡ some owner
    → owner ≢ ""
    → owner ≢ id
    → ((acquire_mutation id now stamp m).0 ≡ locked session.instance_id owner)
      × ((acquire_mutation id now stamp m).1.mutation_owners ≡ m.mutation_owners)
unfolding acquire_mutation acquire_found require_mutable
acquire_mutation_refused id owner now stamp m session found young held proper other =
    let blocked : blocks owner id ≡ true = ground (arith, eq_iff owner "", eq_iff owner id) in
    let fresh : is_expired m.ttl_ms now session ≡ false = ground arith in
    rw (found, require_mutable, fresh, held, acquire_found, blocked) (refl, refl)
