-- ===== src/Tests/Tickets.antt =====
-- Verification tickets at concrete requests.
use emacs_llvm.Base.{ℕ, ◌+◌, ◌<◌, ◌≡◌, ◌≢◌, refl, String, true, false, some, [], ◌∷◌, ◌++◌, arith}
use emacs_llvm.Base.Map.{get, set, delete, retain}
use emacs_llvm.Base.Evict.{evict}
use emacs_llvm.Base.Json.{undefined, str, field, end}
use emacs_llvm.Protocol.Errors.{ok, throw, transaction_not_found}
use emacs_llvm.Tickets.{
  Manager, TicketInput, VerificationTicket, VerificationAttempt, low, prune, create, access, append,
  close,
}
use emacs_llvm.Tickets.Laws.{IsValid, create-IsValid}
use emacs_llvm.Tickets.Access.{access_sound, access_full, append-access}

abbrev input : TicketInput
input = record {
  session_id = "s1";
  adapter = undefined;
  operation = "eval";
  timeout_ms = 1000;
  max_attempts = 3;
  side_effect_risk = low;
  allow_risky_rerun = false;
  attempts = [];
}

abbrev empty : Manager
empty = record { ttl_ms = 100; max_tickets = 2; tickets = [] }

empty-IsValid : IsValid empty
empty-IsValid = record { some_room = omega arith; bounded = omega arith; distinct = tt; named = tt }

abbrev ticket : String → ℕ → VerificationTicket
ticket id now = record { input = input; ticket_id = id; created_at = now; expires_at = now + 100 }

abbrev one : Manager
one = record { ttl_ms = 100; max_tickets = 2; tickets = ("verify_a", ticket "verify_a" 10) ∷ [] }

abbrev two : Manager
two = record {
  ttl_ms = 100;
  max_tickets = 2;
  tickets = ("verify_a", ticket "verify_a" 10) ∷ ("verify_b", ticket "verify_b" 20) ∷ [];
}

tickets : Unit {0}
unfolding create access append close prune retain evict get set delete
tickets = tt

made : (create input "a" 10 10 empty).1 ≡ one
unfolding tickets
made = refl

one-IsValid : IsValid one
unfolding get
one-IsValid = record {
  some_room = omega arith;
  bounded = omega arith;
  distinct = (refl, tt);
  named = (refl, tt);
}

two-IsValid : IsValid two
unfolding get
two-IsValid = record {
  some_room = omega arith;
  bounded = omega arith;
  distinct = (refl, (refl, tt));
  named = (refl, (refl, tt));
}

create-IsValid_example : IsValid (create input "c" 30 30 two).1
create-IsValid_example = create-IsValid input "c" 30 30 two two-IsValid

got : (access "verify_a" "s1" 50 one).0 ≡ ok (ticket "verify_a" 10)
unfolding tickets
got = refl

access_sound_example :
    (input.session_id ≡ "s1")
    × (get "verify_a" one.tickets ≡ some (ticket "verify_a" 10))
    × (50 < 110)
access_sound_example = access_sound "verify_a" "s1" 50 one (ticket "verify_a" 10) one-IsValid got

access_full_example :
    (access "verify_a" "s1" 50 two).0
    ≡ throw transaction_not_found "Unknown or expired verification ticket."
        (some (field "ticket_id" (str "verify_a") end))
unfolding retain
access_full_example =
    access_full "verify_a" "s1" 50 (ticket "verify_a" 10) (("verify_b", ticket "verify_b" 20) ∷ [])
      two two-IsValid refl refl

abbrev attempt : VerificationAttempt
attempt = record {
  adapter = undefined;
  completed = true;
  value = undefined;
  condition = undefined;
  stderr = undefined;
  metadata = undefined;
  more = end;
}

append-access_example :
    let made = append "verify_a" "s1" attempt 50 51 one in
    (t' : VerificationTicket) × (made.0 ≡ ok t')
    × (t'.attempts ≡ [] ++ attempt ∷ [])
    × (t'.expires_at ≡ 151)
    × (get "verify_a" made.1.tickets ≡ some t')
    × ((j : String)
        → j ≢ "verify_a"
        → get j made.1.tickets ≡ get j (access "verify_a" "s1" 50 one).1.tickets)
append-access_example = append-access "verify_a" "s1" attempt 50 51 one (ticket "verify_a" 10) got

closed : (close "verify_a" "s1" 50 one).0 ≡ ok tt
unfolding tickets
closed = refl
