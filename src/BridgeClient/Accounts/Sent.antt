-- ===== src/BridgeClient/Accounts/Sent.antt =====
-- A request that is made keeps the books of a client of the bridge.
use emacs_llvm.Base.{ℕ, ◌≡◌, refl, String, Option, List, ◌∷◌, arith, eq_iff, inl, inr, ◌⊎◌}
use emacs_llvm.Base.Map.{JsMap, set, get-set, set-Distinct}
use emacs_llvm.Base.Bytes.{Text}
use emacs_llvm.Base.Json.{Json, Fields}
use emacs_llvm.Protocol.Errors.{OperatorError, Result, ok, err}
use emacs_llvm.BridgeClient.{Timer, BridgeClient, timer_of}
use emacs_llvm.BridgeClient.Requests.{send, request, may_send, request_id, timeout_or}
use emacs_llvm.BridgeClient.Accounts.{Accounted, Linked, IsValid, running, owner-running}

Result-cases :
    {A : Type 0} (r : Result A) → ((e : OperatorError) × (r ≡ err e)) ⊎ ((a : A) × (r ≡ ok a))
Result-cases (err e) = inl (e, refl)
Result-cases (ok a) = inr (a, refl)

request-Linked :
    (id : String) (call : ℕ) (t : Timer) (pending : JsMap ℕ) (timers : List Timer)
    → t.call ≡ call
    → t.id ≡ id
    → running call timers ≡ 0
    → Linked pending timers
    → Linked (set id call pending) (t ∷ timers)
unfolding timer_of
request-Linked id call t pending timers same same_id new linked j n e =
    ground (arith, get-set id j call pending, eq_iff id j, linked j n, owner-running n timers j)

send-Accounted :
    (stringify : Json → Text) (method : String) (params : Fields) (timeout_ms : ℕ) (id : String)
    (c : BridgeClient)
    → Accounted c
    → Accounted (send stringify method params timeout_ms id c)
unfolding send
send-Accounted stringify method params timeout_ms id c a n = ground (arith, a n)

send-IsValid :
    (stringify : Json → Text) (method : String) (params : Fields) (timeout_ms : ℕ) (id : String)
    (c : BridgeClient)
    → IsValid c
    → IsValid (send stringify method params timeout_ms id c)
unfolding send
send-IsValid stringify method params timeout_ms id c v = record {
  distinct = set-Distinct id c.calls c.pending v.distinct;
  accounted = send-Accounted stringify method params timeout_ms id c v.accounted;
  linked =
      request-Linked id c.calls
        (record { call = c.calls; id = id; method = method; timeout_ms = timeout_ms }) c.pending
        c.timers refl refl (ground (arith, v.accounted c.calls)) v.linked;
}

pub request-IsValid :
    (stringify : Json → Text) (method : String) (params : Fields) (timeout_ms : Option ℕ)
    (given : Option String) (uuid : String) (c : BridgeClient)
    → IsValid c
    → IsValid (request stringify method params timeout_ms given uuid c).1
unfolding request
request-IsValid stringify method params timeout_ms given uuid c v =
    elim (Result-cases (may_send method c)) [
      | inl (e, refused) ↦ rw (refused, request) v
      | inr (u, allowed) ↦
          rw (allowed, request)
            (send-IsValid stringify method params (timeout_or timeout_ms) (request_id given uuid) c
              v)
    ]
