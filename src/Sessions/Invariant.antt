-- ===== src/Sessions/Invariant.antt =====
-- The invariant of the session manager, kept by every operation: each session stands under its own
-- identifier, and each mutation lease is held by a session that stands in the manager and works on
-- the leased instance.
use emacs_llvm.Base.{
  ℕ, ◌≡◌, ◌≢◌, refl, ap, String, none, some, [], ◌∷◌, arith, eq_iff, eq_refl, str_eq, if◌then◌else◌,
  Option-cases, Bool-cases, inl, inr,
}
use emacs_llvm.Base.Map.{
  JsMap, get, set, delete, Distinct, get-set, get-delete, delete-Distinct, set-Distinct,
}
use emacs_llvm.Protocol.Errors.{Result, ok, err}
use emacs_llvm.Sessions.{
  EmacsSession, SessionManager, SessionOpenInput, ResolvedTarget, new_id, opened, open_session,
  close, is_owner, is_expired, used, require_mutable, update_found, update_target, acquire_found,
  acquire_mutation, prune_each, list_sessions, blocks,
}

pub record IsValid (m : SessionManager) : Type 0 where
  pub distinct_sessions : Distinct m.sessions
  pub distinct_owners : Distinct m.mutation_owners
  pub named :
      (id : String) (session : EmacsSession)
      → get id m.sessions ≡ some session
      → session.session_id ≡ id
  pub leased :
      (instance_id owner : String)
      → get instance_id m.mutation_owners ≡ some owner
      → (session : EmacsSession) × (get owner m.sessions ≡ some session)
        × (session.instance_id ≡ instance_id)

-- A session is replaced by one of the same identifier and instance.
replace-IsValid :
    (id : String) (old new : EmacsSession) (m : SessionManager)
    → get id m.sessions ≡ some old
    → new.session_id ≡ old.session_id
    → new.instance_id ≡ old.instance_id
    → IsValid m
    → IsValid (record m { sessions = set id new m.sessions })
replace-IsValid id old new m found same_id same_instance v = record {
  distinct_sessions = set-Distinct id new m.sessions v.distinct_sessions;
  distinct_owners = v.distinct_owners;
  named = λ j session e.
      ground
        (arith, get-set id j new m.sessions, eq_iff id j, v.named id old found, v.named j session);
  leased = λ instance_id owner e.
      let (session, at, inst) = v.leased instance_id owner e in
      elim (Bool-cases (str_eq id owner)) [
        | inl same ↦
            (new, ground (arith, get-set id owner new m.sessions), ground (arith, eq_iff id owner))
        | inr other ↦ (session, ground (arith, get-set id owner new m.sessions), inst)
      ];
}

-- Opening a session under an identifier that is new.
pub open_session-IsValid :
    (input : SessionOpenInput) (uuid : String) (now : ℕ) (m : SessionManager)
    → get (new_id uuid) m.sessions ≡ none
    → IsValid m
    → IsValid (open_session input uuid now m).1
unfolding open_session
open_session-IsValid input uuid now m fresh v =
    let id = new_id uuid in
    let new = opened input uuid now in
    record {
      distinct_sessions = set-Distinct id new m.sessions v.distinct_sessions;
      distinct_owners = v.distinct_owners;
      named = λ j session e.
          ground (arith, get-set id j new m.sessions, eq_iff id j, v.named j session);
      leased = λ instance_id owner e.
          let (session, at, inst) = v.leased instance_id owner e in
          (session, ground (arith, get-set id owner new m.sessions, eq_iff id owner), inst);
    }

-- The leases that are left when a session is closed.
abbrev owners_after : String → EmacsSession → SessionManager → JsMap String
owners_after id session m =
    if is_owner (get session.instance_id m.mutation_owners) id
    then delete session.instance_id m.mutation_owners
    else m.mutation_owners

-- A lease that survives the closing of a session was there before, and is another's.
pub owners_after_lem :
    (id instance_id owner : String) (session : EmacsSession) (m : SessionManager)
    → get id m.sessions ≡ some session
    → IsValid m
    → get instance_id (owners_after id session m) ≡ some owner
    → (get instance_id m.mutation_owners ≡ some owner) × (owner ≢ id)
owners_after_lem id instance_id owner session m found v e =
    let was : get instance_id m.mutation_owners ≡ some owner = ground (
      arith,
      get-delete session.instance_id instance_id m.mutation_owners,
      eq_iff session.instance_id instance_id,
    ) in
    let (holder, at, inst) = v.leased instance_id owner was in
    (
      was,
      λ same. ground (
        arith,
        ap (λ o. get o m.sessions) same,
        get-delete session.instance_id instance_id m.mutation_owners,
        eq_iff session.instance_id instance_id,
        eq_iff owner id,
      ),
    )

pub close-IsValid : (id : String) (m : SessionManager) → IsValid m → IsValid (close id m).1
unfolding close
close-IsValid id m v = elim (Option-cases (get id m.sessions)) [
  | inl missing ↦ rw (missing, close) v
  | inr (session, found) ↦
      rw (found, close)
        (record {
          distinct_sessions = delete-Distinct id m.sessions v.distinct_sessions;
          distinct_owners = ground (
            arith,
            v.distinct_owners,
            delete-Distinct session.instance_id m.mutation_owners v.distinct_owners,
          );
          named =
              λ j other e. ground (arith, get-delete id j m.sessions, eq_iff id j, v.named j other);
          leased = λ instance_id owner e.
              let (was, other) = owners_after_lem id instance_id owner session m found v e in
              let (holder, at, inst) = v.leased instance_id owner was in
              (holder, ground (arith, get-delete id owner m.sessions, eq_iff id owner), inst);
        })
]

pub require_mutable-IsValid :
    (id : String) (now stamp : ℕ) (m : SessionManager)
    → IsValid m
    → IsValid (require_mutable id now stamp m).1
unfolding require_mutable
require_mutable-IsValid id now stamp m v = elim (Option-cases (get id m.sessions)) [
  | inl missing ↦ rw (missing, require_mutable) v
  | inr (session, found) ↦ elim (Bool-cases (is_expired m.ttl_ms now session)) [
    | inl old ↦ rw (found, require_mutable, old) (close-IsValid id m v)
    | inr young ↦
        rw (found, require_mutable, young)
          (replace-IsValid id session (used stamp session) m found refl refl v)
  ]
]

-- What a session that was handed out is in the manager.
pub require_mutable_found :
    (id : String) (now stamp : ℕ) (m : SessionManager) (session : EmacsSession)
    → (require_mutable id now stamp m).0 ≡ ok session
    → (get id (require_mutable id now stamp m).1.sessions ≡ some session)
      × ((require_mutable id now stamp m).1.mutation_owners ≡ m.mutation_owners)
unfolding require_mutable
require_mutable_found id now stamp m session e = elim (Option-cases (get id m.sessions)) [
  | inl missing ↦ cc (rw (missing, require_mutable) at e)
  | inr (old, found) ↦
      let e' = rw (found, require_mutable) at e in
      rw (found, require_mutable)
        (ground (arith, get-set id id (used stamp old) m.sessions, eq_refl id), ground arith)
]

update_found-IsValid :
    (id : String) (target : ResolvedTarget) (stamp : ℕ) (r : Result EmacsSession)
    (m : SessionManager)
    → ((session : EmacsSession) → r ≡ ok session → get id m.sessions ≡ some session)
    → IsValid m
    → IsValid (update_found id target stamp (r, m)).1
unfolding update_found
update_found-IsValid id target stamp (err e) m there v = v
update_found-IsValid id target stamp (ok session) m there v =
    replace-IsValid id session _ m (there session refl) refl refl v

pub update_target-IsValid :
    (id : String) (target : ResolvedTarget) (now stamp stamp' : ℕ) (m : SessionManager)
    → IsValid m
    → IsValid (update_target id target now stamp stamp' m).1
unfolding update_target
update_target-IsValid id target now stamp stamp' m v =
    update_found-IsValid id target stamp' (require_mutable id now stamp m).0
      (require_mutable id now stamp m).1 (λ s e. (require_mutable_found id now stamp m s e).0)
      (require_mutable-IsValid id now stamp m v)

acquire_found-IsValid :
    (id : String) (r : Result EmacsSession) (m : SessionManager)
    → ((session : EmacsSession) → r ≡ ok session → get id m.sessions ≡ some session)
    → IsValid m
    → IsValid (acquire_found id (r, m)).1
unfolding acquire_found
acquire_found-IsValid id (err e) m there v = v
acquire_found-IsValid id (ok session) m there v =
    let taken : IsValid
        (record m { mutation_owners = set session.instance_id id m.mutation_owners }) =
      record {
        distinct_sessions = v.distinct_sessions;
        distinct_owners = set-Distinct session.instance_id id m.mutation_owners v.distinct_owners;
        named = v.named;
        leased = λ instance_id owner e. elim (Bool-cases (str_eq session.instance_id instance_id)) [
          | inl same ↦ (
            session,
            ground (
              arith,
              there session refl,
              get-set session.instance_id instance_id id m.mutation_owners,
            ),
            ground (arith, eq_iff session.instance_id instance_id),
          )
          | inr other ↦
              v.leased instance_id owner
                (ground (arith, get-set session.instance_id instance_id id m.mutation_owners))
        ];
      } in
    elim (Option-cases (get session.instance_id m.mutation_owners)) [
      | inl free ↦ rw (free, acquire_found) taken
      | inr (owner, held) ↦ elim (Bool-cases (blocks owner id)) [
        | inl other ↦ rw (held, acquire_found, other) v
        | inr own ↦ rw (held, acquire_found, own) taken
      ]
    ]

pub acquire_mutation-IsValid :
    (id : String) (now stamp : ℕ) (m : SessionManager)
    → IsValid m
    → IsValid (acquire_mutation id now stamp m).1
unfolding acquire_mutation
acquire_mutation-IsValid id now stamp m v =
    acquire_found-IsValid id (require_mutable id now stamp m).0 (require_mutable id now stamp m).1
      (λ s e. (require_mutable_found id now stamp m s e).0)
      (require_mutable-IsValid id now stamp m v)

prune_each-IsValid :
    (now : ℕ) (entries : JsMap EmacsSession) (m : SessionManager)
    → IsValid m
    → IsValid (prune_each now entries m)
unfolding prune_each
prune_each-IsValid now [] m v = v
prune_each-IsValid now ((id, session) ∷ rest) m v =
    elim (Bool-cases (is_expired m.ttl_ms now session)) [
      | inl old ↦ rw old (prune_each-IsValid now rest (close id m).1 (close-IsValid id m v))
      | inr young ↦ rw young (prune_each-IsValid now rest m v)
    ]

pub list_sessions-IsValid :
    (now : ℕ) (m : SessionManager) → IsValid m → IsValid (list_sessions now m).1
unfolding list_sessions
list_sessions-IsValid now m v = prune_each-IsValid now m.sessions m v
