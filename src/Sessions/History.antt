-- ===== src/Sessions/History.antt =====
-- Every history of a session manager: the operations as steps, each with the readings of the clock
-- and the identifiers that it meets.
use emacs_llvm.Base.{
  ℕ, ◌≡◌, ◌≢◌, refl, sym, ap, ◌∙◌, String, none, some, [], arith, eq_iff, if◌then◌else◌,
  Option-cases, inl, inr, ◌∷◌,
}
use emacs_llvm.Base.Map.{JsMap, get, get-set, get-delete}
use emacs_llvm.Protocol.Errors.{Result, ok, err}
use emacs_llvm.Sessions.{
  EmacsSession, SessionManager, SessionOpenInput, ResolvedTarget, create, new_id, open_session,
  close, is_expired, require_mutable, update_found, update_target, acquire_found, acquire_mutation,
  prune_each, list_sessions,
}
use emacs_llvm.Sessions.Invariant.{
  IsValid, open_session-IsValid, close-IsValid, require_mutable-IsValid, update_target-IsValid,
  acquire_mutation-IsValid, list_sessions-IsValid, require_mutable_found,
}

-- `open` draws an identifier that is not in use: what `crypto.randomUUID` documents.
pub data Step (m : SessionManager) : SessionManager → Type 0 where
  opens :
      (input : SessionOpenInput) (uuid : String) (now : ℕ)
      → get (new_id uuid) m.sessions ≡ none
      → Step m (open_session input uuid now m).1
  gets : (id : String) (now stamp : ℕ) → Step m (require_mutable id now stamp m).1
  updates :
      (id : String) (target : ResolvedTarget) (now stamp stamp' : ℕ)
      → Step m (update_target id target now stamp stamp' m).1
  acquires : (id : String) (now stamp : ℕ) → Step m (acquire_mutation id now stamp m).1
  closes : (id : String) → Step m (close id m).1
  lists : (now : ℕ) → Step m (list_sessions now m).1

pub data Reach (m : SessionManager) : SessionManager → Type 0 where
  here : Reach m m
  next : {n k : SessionManager} → Reach m n → Step n k → Reach m k

Step-IsValid : {m n : SessionManager} → Step m n → IsValid m → IsValid n
Step-IsValid {m} (opens input uuid now fresh) v = open_session-IsValid input uuid now m fresh v
Step-IsValid {m} (gets id now stamp) v = require_mutable-IsValid id now stamp m v
Step-IsValid {m} (updates id target now stamp stamp') v =
    update_target-IsValid id target now stamp stamp' m v
Step-IsValid {m} (acquires id now stamp) v = acquire_mutation-IsValid id now stamp m v
Step-IsValid {m} (closes id) v = close-IsValid id m v
Step-IsValid {m} (lists now) v = list_sessions-IsValid now m v

Reach-IsValid : {m n : SessionManager} → Reach m n → IsValid m → IsValid n
Reach-IsValid here v = v
Reach-IsValid (next r s) v = Step-IsValid s (Reach-IsValid r v)

new-IsValid : (ttl_ms : ℕ) (m : SessionManager) → create ttl_ms ≡ some m → IsValid m
unfolding create get
new-IsValid ttl_ms m e =
    let sessions : m.sessions ≡ [] = ground arith in
    let owners : m.mutation_owners ≡ [] = ground arith in
    record {
      distinct_sessions = rw sessions tt;
      distinct_owners = rw owners tt;
      named = λ id s h. cc (rw (sessions, get) at h);
      leased = λ id s h. cc (rw (owners, get) at h);
    }

-- After any history of a new manager, in which no identifier is drawn that is in use, every session stands under its identifier, and every lease is
-- held by a session that stands in the manager and works on the leased instance.
pub Reach-create-IsValid :
    (ttl_ms : ℕ) (m n : SessionManager) → create ttl_ms ≡ some m → Reach m n → IsValid n
Reach-create-IsValid ttl_ms m n made r = Reach-IsValid r (new-IsValid ttl_ms m made)

-- Each lease of `n` was one of `m`.
abbrev Within : SessionManager → SessionManager → Type 0
Within m n =
    (instance_id owner : String)
    → get instance_id n.mutation_owners ≡ some owner
    → get instance_id m.mutation_owners ≡ some owner

close-Within : (id : String) (m : SessionManager) → Within m (close id m).1
unfolding close
close-Within id m instance_id owner after = elim (Option-cases (get id m.sessions)) [
  | inl missing ↦ let after' = rw (missing, close) at after in ground arith
  | inr (session, found) ↦
      let after' = rw (found, close) at after in
      ground (
        arith,
        get-delete session.instance_id instance_id m.mutation_owners,
        eq_iff session.instance_id instance_id,
      )
]

require_mutable-Within :
    (id : String) (now stamp : ℕ) (m : SessionManager) → Within m (require_mutable id now stamp m).1
unfolding require_mutable
require_mutable-Within id now stamp m instance_id owner after =
    elim (Option-cases (get id m.sessions)) [
      | inl missing ↦ let after' = rw (missing, require_mutable) at after in ground arith
      | inr (session, found) ↦
          let after' = rw (found, require_mutable) at after in
          ground (arith, close-Within id m instance_id owner)
    ]

update_found-Within :
    (id : String) (target : ResolvedTarget) (stamp : ℕ) (r : Result EmacsSession)
    (m : SessionManager)
    → Within m (update_found id target stamp (r, m)).1
unfolding update_found
update_found-Within id target stamp (err e) m instance_id owner after = after
update_found-Within id target stamp (ok session) m instance_id owner after = after

prune_each-Within :
    (now : ℕ) (entries : JsMap EmacsSession) (m : SessionManager)
    → Within m (prune_each now entries m)
unfolding prune_each
prune_each-Within now [] m instance_id owner after = after
prune_each-Within now ((id, session) ∷ rest) m instance_id owner after =
    let left = if is_expired m.ttl_ms now session then (close id m).1 else m in
    let was = prune_each-Within now rest left instance_id owner after in
    ground (arith, was, close-Within id m instance_id owner)

acquire_found_keeps :
    (id instance_id owner owner' : String) (r : Result EmacsSession) (m : SessionManager)
    → owner ≢ ""
    → get instance_id m.mutation_owners ≡ some owner
    → get instance_id (acquire_found id (r, m)).1.mutation_owners ≡ some owner'
    → owner ≡ owner'
unfolding acquire_found
acquire_found_keeps id instance_id owner owner' (err e) m proper before after = ground arith
acquire_found_keeps id instance_id owner owner' (ok session) m proper before after = ground (
  arith,
  get-set session.instance_id instance_id id m.mutation_owners,
  eq_iff session.instance_id instance_id,
  eq_iff owner "",
  eq_iff owner id,
)

acquire_after_keeps :
    (id instance_id owner owner' : String) (r : Result EmacsSession) (m m' : SessionManager)
    → Within m m'
    → ((session : EmacsSession) → r ≡ ok session → m'.mutation_owners ≡ m.mutation_owners)
    → owner ≢ ""
    → get instance_id m.mutation_owners ≡ some owner
    → get instance_id (acquire_found id (r, m')).1.mutation_owners ≡ some owner'
    → owner ≡ owner'
acquire_after_keeps id instance_id owner owner' (err e) m m' within same proper before after =
    let was = within instance_id owner' (unfold acquire_found in after) in cc (sym before ∙ was)
acquire_after_keeps id instance_id owner owner' (ok session) m m' within same proper before after =
    acquire_found_keeps id instance_id owner owner' (ok session) m' proper
      (ap (get instance_id) (same session refl) ∙ before) after

-- No operation takes a lease from its holder, whose identifier is not empty, and gives it to another
-- session: if the lease of an instance is held before the operation and after it, it is held by the
-- same session.
pub Step-no_steal :
    {m n : SessionManager} (instance_id owner owner' : String)
    → Step m n
    → owner ≢ ""
    → get instance_id m.mutation_owners ≡ some owner
    → get instance_id n.mutation_owners ≡ some owner'
    → owner ≡ owner'
unfolding open_session update_target acquire_mutation list_sessions
Step-no_steal i o o' (opens input uuid now fresh) proper before after = cc (sym before ∙ after)
Step-no_steal {m} i o o' (gets id now stamp) proper before after =
    cc (sym before ∙ require_mutable-Within id now stamp m i o' after)
Step-no_steal {m} i o o' (updates id target now stamp stamp') proper before after =
    let r = require_mutable id now stamp m in
    let was = update_found-Within id target stamp' r.0 r.1 i o' after in
    cc (sym before ∙ require_mutable-Within id now stamp m i o' was)
Step-no_steal {m} i o o' (acquires id now stamp) proper before after =
    let r = require_mutable id now stamp m in
    acquire_after_keeps id i o o' r.0 m r.1 (require_mutable-Within id now stamp m)
      (λ s e. (require_mutable_found id now stamp m s e).1) proper before after
Step-no_steal {m} i o o' (closes id) proper before after =
    cc (sym before ∙ close-Within id m i o' after)
Step-no_steal {m} i o o' (lists now) proper before after =
    cc (sym before ∙ prune_each-Within now m.sessions m i o' after)
