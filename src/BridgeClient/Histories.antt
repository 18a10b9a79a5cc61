-- ===== src/BridgeClient/Histories.antt =====
-- Every history of a client of the bridge: the calls of its methods and what the socket and the
-- timers do, in any order.
use emacs_llvm.Base.{
  ℕ, ◌≡◌, refl, String, Option, List, [], ◌∷◌, arith, Option-cases, inl, inr, ◌⊎◌, some,
}
use emacs_llvm.Base.Map.{get, delete}
use emacs_llvm.Base.Bytes.{Text}
use emacs_llvm.Base.Json.{Json, Fields, at}
use emacs_llvm.Base.Values.{string_of}
use emacs_llvm.Protocol.Errors.{Thrown, Result, ok, err, operator}
use emacs_llvm.Framing.{push}
use emacs_llvm.BridgeClient.{
  BridgeClient, Outcome, new_client, connect, on_connect, on_close, on_socket_error, close,
  on_timeout,
}
use emacs_llvm.BridgeClient.Requests.{request, initialized_by}
use emacs_llvm.BridgeClient.Messages.{
  Parsed, answer_of, settled_by, receive, receive_text, members_of, receive_each, drop_all,
  received, on_data,
}
use emacs_llvm.BridgeClient.Accounts.{
  IsValid, owner, settle-IsValid, lost-IsValid, reject_all-IsValid, on_timeout-IsValid,
}
use emacs_llvm.BridgeClient.Accounts.Sent.{request-IsValid}

drop_all-IsValid : (thrown : Thrown) (c : BridgeClient) → IsValid c → IsValid (drop_all thrown c)
unfolding drop_all
drop_all-IsValid thrown c v =
    let w = reject_all-IsValid thrown c v in
    record { distinct = w.distinct; accounted = w.accounted; linked = w.linked }

same_books :
    (c : BridgeClient) (d : BridgeClient)
    → d.pending ≡ c.pending
    → d.timers ≡ c.timers
    → d.settlements ≡ c.settlements
    → d.forgotten ≡ c.forgotten
    → d.calls ≡ c.calls
    → IsValid c
    → IsValid d
same_books c d p t s f n v = record {
  distinct = rw p v.distinct;
  accounted = λ m. rw (s, t, f, n) (v.accounted m);
  linked = λ id call e. rw t (v.linked id call (rw p at e));
}

initialized_by-IsValid : (call : ℕ) (c : BridgeClient) → IsValid c → IsValid (initialized_by call c)
unfolding initialized_by
initialized_by-IsValid call c v =
    same_books c (initialized_by call c) (ground arith) (ground arith) (ground arith) (ground arith)
      (ground arith) v

connect-IsValid : (c : BridgeClient) → IsValid c → IsValid (connect c)
unfolding connect
connect-IsValid c v =
    same_books c (connect c) (ground arith) (ground arith) (ground arith) (ground arith)
      (ground arith) v

module _ (string : Json → Thrown ⊎ String) where
  settled_by-IsValid :
      (r : Thrown ⊎ Outcome) (id : String) (call : ℕ) (c : BridgeClient)
      → owner call c.timers ≡ some id
      → IsValid c
      → IsValid (settled_by string r call (record c { pending = delete id c.pending })).1
  settled_by-IsValid (inl thrown) id call c own v = lost-IsValid id call c own v
  settled_by-IsValid (inr outcome) id call c own v = settle-IsValid id call outcome c own v

  receive-IsValid :
      (message : Fields) (c : BridgeClient) → IsValid c → IsValid (receive string message c).1
  unfolding receive
  receive-IsValid message c v = elim (Option-cases (string_of (at "id" message))) [
    | inl other ↦ rw (other, receive) v
    | inr (id, named) ↦ elim (Option-cases (get id c.pending)) [
      | inl unknown ↦ rw (named, receive, unknown) v
      | inr (call, waits) ↦
          rw (named, receive, waits)
            (settled_by-IsValid (answer_of string message) id call c (v.linked id call waits) v)
    ]
  ]

  receive_text-IsValid :
      (r : Thrown ⊎ Fields) (c : BridgeClient) → IsValid c → IsValid (receive_text string r c).1
  unfolding receive_text
  receive_text-IsValid (inl thrown) c v = v
  receive_text-IsValid (inr message) c v = receive-IsValid message c v

  module _ (parse : Text → Parsed) where
    receive_each-IsValid :
        (texts : List Text) (c : BridgeClient)
        → IsValid c
        → IsValid (receive_each string parse texts c)
    unfolding receive_each
    receive_each-IsValid [] c v = v
    receive_each-IsValid (text ∷ texts) c v =
        let one = receive_text string (members_of string (parse text)) c in
        let w = receive_text-IsValid (members_of string (parse text)) c v in
        elim (Option-cases one.0) [
          | inl read ↦ rw (read, receive_each) (receive_each-IsValid texts one.1 w)
          | inr (thrown, stopped) ↦ rw (stopped, receive_each) (drop_all-IsValid thrown one.1 w)
        ]

    module _ (number : Text → Option ℕ) (max_message_bytes : ℕ) where
      received-IsValid :
          (r : Result (List Text) × Text) (c : BridgeClient)
          → IsValid c
          → IsValid (received string parse number max_message_bytes r c)
      received-IsValid (err e, buffer) c v =
          drop_all-IsValid (operator e) (record c { buffer = buffer })
            (same_books c (record c { buffer = buffer }) refl refl refl refl refl v)
      received-IsValid (ok texts, buffer) c v =
          receive_each-IsValid texts (record c { buffer = buffer })
            (same_books c (record c { buffer = buffer }) refl refl refl refl refl v)

      module _ (stringify : Json → Text) where
        pub data Step (c : BridgeClient) : BridgeClient → Type 0 where
          connects : Step c (connect c)
          opens : Step c (on_connect c)
          requests :
              (method : String) (params : Fields) (timeout_ms : Option ℕ) (given : Option String)
              (uuid : String)
              → Step c (request stringify method params timeout_ms given uuid c).1
          initializes : (call : ℕ) → Step c (initialized_by call c)
          reads : (chunk : Text) → Step c (on_data string parse number max_message_bytes chunk c)
          times_out : (call : ℕ) → Step c (on_timeout call c)
          fails : (message : String) → Step c (on_socket_error message c)
          ends : Step c (on_close c)
          closes : Step c (close c)

        pub data Reach (c : BridgeClient) : BridgeClient → Type 0 where
          here : Reach c c
          next : {d e : BridgeClient} → Reach c d → Step d e → Reach c e

        Step-IsValid : {c d : BridgeClient} → Step c d → IsValid c → IsValid d
        unfolding on_connect on_close on_socket_error close on_data
        Step-IsValid {c} connects v = connect-IsValid c v
        Step-IsValid {c} opens v = same_books c (on_connect c) refl refl refl refl refl v
        Step-IsValid {c} (requests method params timeout_ms given uuid) v =
            request-IsValid stringify method params timeout_ms given uuid c v
        Step-IsValid {c} (initializes call) v = initialized_by-IsValid call c v
        Step-IsValid {c} (reads chunk) v =
            received-IsValid (push number max_message_bytes c.buffer chunk) c v
        Step-IsValid {c} (times_out call) v = on_timeout-IsValid call c v
        Step-IsValid {c} (fails message) v = reject_all-IsValid _ c v
        Step-IsValid {c} ends v = reject_all-IsValid _ _ (same_books c _ refl refl refl refl refl v)
        Step-IsValid {c} closes v =
            reject_all-IsValid _ _ (same_books c _ refl refl refl refl refl v)

        new_client-IsValid : IsValid new_client
        unfolding new_client get
        new_client-IsValid = record {
          distinct = tt;
          accounted = λ n. ground arith;
          linked = λ id call e. cc;
        }

        -- Whatever a client has been through, each of its requests has been settled exactly once, or
        -- is not settled and has exactly one timer, or was taken off the map with an answer that
        -- threw, and then has neither; what waits under an identifier is a request whose timer was
        -- set for it; and nothing else was settled or is timed.
        pub Reach-new_client-IsValid : {c : BridgeClient} → Reach new_client c → IsValid c
        Reach-new_client-IsValid here = new_client-IsValid
        Reach-new_client-IsValid (next r s) = Step-IsValid s (Reach-new_client-IsValid r)
