-- ===== src/Tests/Sessions.antt =====
-- The session manager at concrete histories.
use emacs_llvm.Base.{
  ◌-◌, ◌≤◌, ◌≡◌, ◌≢◌, ◌↔◌, refl, String, true, none, some, [], ◌∷◌, map, arith, eq_iff,
}
use emacs_llvm.Base.Map.{get, set, delete, retain}
use emacs_llvm.Base.Json.{end}
use emacs_llvm.Protocol.Errors.{ok}
use emacs_llvm.Sessions.{
  semantic, Nullable, ResolvedTarget, EmacsSession, SessionOpenInput, SessionManager, create,
  opened, open_session, close, used, require_mutable, update_target, acquire_mutation,
  list_sessions, prune_each, locked, expired_session, new_id,
}
use emacs_llvm.Sessions.Invariant.{IsValid}
use emacs_llvm.Sessions.Lifetime.{require_mutable_iff, require_mutable_expired}
use emacs_llvm.Sessions.Leases.{acquire_mutation_refused}
use emacs_llvm.Sessions.Listing.{is_current, list_sessions_lem}
use emacs_llvm.Sessions.History.{
  Reach-create-IsValid, Step-no_steal, opens, acquires, gets, here, next,
}

sessions : Unit {0}
unfolding create open_session close require_mutable update_target acquire_mutation list_sessions
    prune_each get set delete retain
sessions = tt

abbrev target : ResolvedTarget
target = record {
  frame_id = none;
  frame_title = Nullable.null;
  native_window_identifier = Nullable.absent;
  window_id = some "w";
  buffer_id = "b";
  buffer_name = "x.el";
  file = Nullable.given "/w/x.el";
  project_root = Nullable.given "/w";
  major_mode = "emacs-lisp-mode";
}

abbrev input : SessionOpenInput
input = record {
  instance_id = "emacs";
  default_channel = semantic;
  permission_profile = "workspace_edit";
  target = target;
  capabilities = record { channels = λ c. true; features = end };
  state_seq_at_open = 0;
  lease_owner = none;
}

abbrev empty : SessionManager
empty = record { ttl_ms = 100; sessions = []; mutation_owners = [] }

-- Two sessions of one instance; the first holds the lease.
abbrev two : SessionManager
two = record {
  ttl_ms = 100;
  sessions = ("ses_a", opened input "a" 0) ∷ ("ses_b", opened input "b" 90) ∷ [];
  mutation_owners = ("emacs", "ses_a") ∷ [];
}

reached :
    (acquire_mutation "ses_a" 0 0
      (open_session input "b" 90 (open_session input "a" 0 empty).1).1).1
    ≡ two
unfolding sessions
reached = refl

created : create 100 ≡ some empty
unfolding create
created = refl

fresh_a : get (new_id "a") empty.sessions ≡ none
unfolding get
fresh_a = refl

Reach-create-IsValid_example :
    IsValid (require_mutable (new_id "a") 5 5 (open_session input "a" 0 empty).1).1
Reach-create-IsValid_example =
    Reach-create-IsValid 100 empty _ created
      (next (next here (opens input "a" 0 fresh_a)) (gets (new_id "a") 5 5))

two-IsValid : IsValid two
unfolding sessions
two-IsValid = Reach-create-IsValid 100 empty two created (
    next (next (next here (opens input "a" 0 refl)) (opens input "b" 90 refl))
      (acquires "ses_a" 0 0))

proper : ◌≢◌ {A = String} "ses_a" ""
proper = ground (arith, eq_iff "ses_a" "")

other : ◌≢◌ {A = String} "ses_a" "ses_b"
other = ground (arith, eq_iff "ses_a" "ses_b")

Step-no_steal_example : ◌≡◌ {A = String} "ses_a" "ses_a"
unfolding sessions
Step-no_steal_example =
    Step-no_steal {m = two} "emacs" "ses_a" "ses_a" (acquires "ses_b" 95 95) proper refl refl

granted : (acquire_mutation "ses_a" 50 50 two).0 ≡ ok tt
unfolding sessions
granted = refl

-- At 150 the holder has expired, and still nobody else is let in.
acquire_mutation_refused_example :
    ((acquire_mutation "ses_b" 150 150 two).0 ≡ locked "emacs" "ses_a")
    × ((acquire_mutation "ses_b" 150 150 two).1.mutation_owners ≡ two.mutation_owners)
unfolding get
acquire_mutation_refused_example =
    acquire_mutation_refused "ses_b" "ses_a" 150 150 two (opened input "b" 90) refl (omega arith)
      refl proper other

abbrev session_at_50 : EmacsSession
session_at_50 = used 50 (opened input "a" 0)

abbrev two_at_50 : SessionManager
two_at_50 = record two { sessions = set "ses_a" session_at_50 two.sessions }

require_mutable_iff_example :
    (require_mutable "ses_a" 50 50 two ≡ (ok session_at_50, two_at_50)) ↔ (
      (old : EmacsSession) × (get "ses_a" two.sessions ≡ some old)
      × (50 - old.last_used_at ≤ 100)
      × (session_at_50 ≡ record old { last_used_at = 50 })
      × (two_at_50 ≡ record two { sessions = set "ses_a" session_at_50 two.sessions }))
require_mutable_iff_example = require_mutable_iff "ses_a" 50 50 two two_at_50 session_at_50

used_at_50 : (require_mutable "ses_a" 50 50 two).0 ≡ ok (used 50 (opened input "a" 0))
unfolding sessions
used_at_50 = refl

require_mutable_expired_example :
    let r = require_mutable "ses_a" 150 150 two in
    (r.0 ≡ expired_session "ses_a")
    × (get "ses_a" r.1.sessions ≡ none)
    × (get "emacs" r.1.mutation_owners ≢ some "ses_a")
unfolding get
require_mutable_expired_example =
    require_mutable_expired "ses_a" 150 150 two (opened input "a" 0) two-IsValid refl (omega arith)

abbrev retargeted : EmacsSession
retargeted = record (opened input "a" 0) { last_used_at = 51 }

updated : (update_target "ses_a" target 50 50 51 two).0 ≡ ok retargeted
unfolding sessions
updated = refl

list_sessions_lem_example :
    ((list_sessions 150 two).0 ≡ map (λ e. e.1) (retain (is_current 100 150) two.sessions))
    × ((list_sessions 150 two).1.sessions ≡ retain (is_current 100 150) two.sessions)
list_sessions_lem_example = list_sessions_lem 150 two two-IsValid.distinct_sessions
