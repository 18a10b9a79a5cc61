-- ===== src/Tests/BridgeClient.antt =====
-- A client of the bridge at fixed inputs. `JSON.parse` reads one text, `String` gives a constant one.
use emacs_llvm.Base.{◌⊎◌, inl, inr, ◌≡◌, refl, String, false, none, some, [], ◌∷◌, ◌++◌, arith}
use emacs_llvm.Base.Bytes.{
  Text, codes, text_eq, strip_prefix, split_once, trim_start, trim_end, decimal,
}
use emacs_llvm.Base.Map.{get, set, delete}
use emacs_llvm.Base.Json.{Json, str, Fields, field, end, at, nat, obj}
use emacs_llvm.Protocol.Errors.{Thrown, error, operator, operator_error, emacs_disconnected}
use emacs_llvm.Framing.{
  push, drain, read_head, split_header, split_lines, content_length, encode_content_length_frame,
}
use emacs_llvm.BridgeClient.{
  BridgeClient, Timer, resolved, rejected, new_client, on_connect, on_close, on_timeout, timer_of,
  clear_timeout, settle, reject_all, reject_each,
}
use emacs_llvm.BridgeClient.Requests.{request, send, outcome_of, may_send}
use emacs_llvm.BridgeClient.Messages.{
  Parsed, parsed, receive, on_data, receive_each, receive_text, members_of, answer_of, rejection,
  worded,
}
use emacs_llvm.BridgeClient.Accounts.{IsValid, times, on_timeout-settled}
use emacs_llvm.BridgeClient.Histories.{Reach, here, next, opens, requests, Reach-new_client-IsValid}
use emacs_llvm.BridgeClient.Answers.{on_data-encode, on_close_lem, receive-on_timeout, rejections}
use emacs_llvm.BridgeClient.Outcomes.{result, receive_lost}
use emacs_llvm.BridgeClient.Cuts.{on_data-append}
use emacs_llvm.Tests.Framing.{number, value_from, small_numbers}

abbrev string : Json → Thrown ⊎ String
string v = inr "text"

abbrev stringify : Json → Text
stringify v = codes "{}"

abbrev answer : Fields
answer = field "id" (str "a") (field "result" (nat 7) end)

abbrev parse : Text → Parsed
parse text = parsed (obj answer)

-- Two requests under one identifier.
abbrev ask : BridgeClient → BridgeClient
ask c = (request stringify "initialize" end (some 5) (some "a") "" c).1

abbrev waiting : BridgeClient
waiting = ask (on_connect new_client)

abbrev twice : BridgeClient
twice = ask waiting

running_client : Unit {0}
unfolding new_client on_connect request send get set delete at timer_of clear_timeout settle push
    drain read_head split_header split_lines content_length strip_prefix split_once trim_start
    trim_end text_eq encode_content_length_frame decimal value_from receive_each receive
    receive_text answer_of rejection worded members_of on_data on_timeout on_close reject_all
    reject_each outcome_of may_send
running_client = tt

-- The answer comes in two chunks.
answered :
    outcome_of 0
      (on_data string parse number 2
        (codes "gth: 2" ++ 13 ∷ 10 ∷ 13 ∷ 10 ∷ codes "{}")
        (on_data string parse number 2 (codes "Content-Len") waiting)).settlements
    ≡ some (resolved (nat 7))
unfolding running_client
answered = refl

-- After the first of the two has timed out, the answer to the second is dropped.
dropped :
    outcome_of 1
      (on_data string parse number 2
        (encode_content_length_frame (codes "{}"))
        (on_timeout 0 twice)).settlements
    ≡ none
unfolding running_client
dropped = refl

reached : Reach string parse number 2 stringify new_client waiting
unfolding running_client
reached = next (next here opens) (requests "initialize" end (some 5) (some "a") "")

Reach-new_client-IsValid_example : IsValid waiting
Reach-new_client-IsValid_example = Reach-new_client-IsValid string parse number 2 stringify reached

waiting-IsValid : IsValid waiting
waiting-IsValid = Reach-new_client-IsValid string parse number 2 stringify reached

on_timeout-settled_example : times 0 (on_timeout 0 waiting).settlements ≡ 1
unfolding running_client
on_timeout-settled_example = on_timeout-settled 0 waiting waiting-IsValid (omega arith) refl

on_data-encode_example :
    on_data string parse number 2 (encode_content_length_frame (codes "{}")) waiting
    ≡ record waiting {
      buffer = [];
      pending = delete "a" waiting.pending;
      timers = clear_timeout 0 waiting.timers;
      settlements = waiting.settlements ++ (0, resolved (nat 7)) ∷ [];
    }
unfolding running_client
on_data-encode_example =
    on_data-encode string parse number 2 small_numbers "a" 0 answer (codes "{}") (resolved (nat 7))
      waiting refl (omega arith) refl refl refl (result refl)

on_data-append_example :
    on_data string parse number 2
      (codes "gth: 2" ++ 13 ∷ 10 ∷ 13 ∷ 10 ∷ codes "{}")
      (on_data string parse number 2 (codes "Content-Len") waiting)
    ≡ on_data string parse number 2
        (codes "Content-Len" ++ codes "gth: 2" ++ 13 ∷ 10 ∷ 13 ∷ 10 ∷ codes "{}")
        waiting
unfolding running_client
on_data-append_example =
    on_data-append string parse number 2 (codes "Content-Len")
      (codes "gth: 2" ++ 13 ∷ 10 ∷ 13 ∷ 10 ∷ codes "{}") [] (codes "{}" ∷ []) waiting refl

on_close_lem_example :
    ((on_close waiting).settlements
      ≡ waiting.settlements
        ++ rejections
            (rejected
              (operator (operator_error emacs_disconnected "Emacs bridge disconnected." none)))
            waiting.pending)
    × ((on_close waiting).pending ≡ [])
    × ((on_close waiting).connected ≡ false)
    × ((on_close waiting).initialized ≡ false)
on_close_lem_example = on_close_lem waiting

abbrev timer : Timer
timer = record { call = 0; id = "a"; method = "initialize"; timeout_ms = 5 }

receive-on_timeout_example : receive string answer (on_timeout 0 twice) ≡ (none, on_timeout 0 twice)
unfolding running_client
receive-on_timeout_example = receive-on_timeout string timer 0 answer twice refl refl

-- `String` throws for every object.
abbrev no_text : Json → Thrown ⊎ String
no_text v = inl (error "Cannot convert object to primitive value")

abbrev unreadable : Fields
unreadable = field "id" (str "a") (field "error" (obj (field "message" (obj end) end)) end)

receive_lost_example : receive no_text unreadable waiting ≡ (
  some (error "Cannot convert object to primitive value"),
  record waiting {
    pending = delete "a" waiting.pending;
    timers = clear_timeout 0 waiting.timers;
    forgotten = 0 ∷ [];
  },
)
unfolding running_client
receive_lost_example =
    receive_lost no_text "a" 0 unreadable (field "message" (obj end) end)
      (error "Cannot convert object to primitive value") waiting refl refl refl (λ other. refl)
