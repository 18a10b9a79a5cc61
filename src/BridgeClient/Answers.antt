-- ===== src/BridgeClient/Answers.antt =====
-- What a client of the bridge does with one answer, and with the end of the connection.
use emacs_llvm.Base.{
  ℕ, inr, ◌⊎◌, ◌≤◌, ◌≡◌, refl, ap, ◌∙◌, sym, String, false, Option, none, some, List, [], ◌∷◌, ◌++◌,
  map, append-nil, eq_refl, append_assoc, length,
}
use emacs_llvm.Base.Map.{JsMap, get, delete, get-delete}
use emacs_llvm.Base.Bytes.{Text, decimal}
use emacs_llvm.Base.Json.{Json, str, obj, Fields, at}
use emacs_llvm.Base.Values.{string_of}
use emacs_llvm.Protocol.Errors.{ok, Thrown, operator, operator_error, emacs_disconnected}
use emacs_llvm.Framing.{push, encode_content_length_frame}
use emacs_llvm.Framing.Frames.{push-encode_all}
use emacs_llvm.BridgeClient.{
  BridgeClient, Outcome, rejected, Timer, timer_of, clear_timeout, on_timeout, settle, reject_each,
  reject_all, on_close,
}
use emacs_llvm.BridgeClient.Messages.{
  Parsed, parsed, receive, drop_all, receive_text, members_of, receive_each, on_data,
}
use emacs_llvm.BridgeClient.Outcomes.{Says, answer_of-Says}

-- All that waited has been rejected, in the order of the map.
abbrev pub rejections : Outcome → JsMap ℕ → List (ℕ × Outcome)
rejections outcome = map λ (entry : String × ℕ). (entry.1, outcome)

reject_each-settled :
    (entries : JsMap ℕ) (outcome : Outcome) (c : BridgeClient)
    → (reject_each entries outcome c).settlements ≡ c.settlements ++ rejections outcome entries
unfolding reject_each settle
reject_each-settled [] outcome c = sym (append-nil c.settlements)
reject_each-settled ((id, call) ∷ rest) outcome c =
    reject_each-settled rest outcome (settle call outcome c)
    ∙ append_assoc c.settlements ((call, outcome) ∷ []) (rejections outcome rest)

reject_each_flags :
    (entries : JsMap ℕ) (outcome : Outcome) (c : BridgeClient)
    → ((reject_each entries outcome c).connected ≡ c.connected)
      × ((reject_each entries outcome c).initialized ≡ c.initialized)
unfolding reject_each settle
reject_each_flags [] outcome c = (refl, refl)
reject_each_flags ((id, call) ∷ rest) outcome c =
    reject_each_flags rest outcome (settle call outcome c)

-- When the connection ends, every request that waits is rejected as disconnected, once for each
-- identifier and in the order of the map, nothing waits any more, and the client is no longer
-- connected or initialized.
pub on_close_lem :
    (c : BridgeClient)
    → ((on_close c).settlements
        ≡ c.settlements
          ++ rejections
              (rejected
                (operator (operator_error emacs_disconnected "Emacs bridge disconnected." none)))
              c.pending)
      × ((on_close c).pending ≡ [])
      × ((on_close c).connected ≡ false)
      × ((on_close c).initialized ≡ false)
unfolding on_close reject_all
on_close_lem c =
    let ended = record c { connected = false; initialized = false } in
    let flags = reject_each_flags c.pending _ ended in
    (reject_each-settled c.pending _ ended, refl, flags.0, flags.1)

module _ (string : Json → Thrown ⊎ String) where
  receive_waiting :
      (id : String) (call : ℕ) (message : Fields) (outcome : Outcome) (c : BridgeClient)
      → at "id" message ≡ str id
      → get id c.pending ≡ some call
      → Says string message outcome
      → receive string message c
        ≡ (none, settle call outcome (record c { pending = delete id c.pending }))
  unfolding receive
  receive_waiting id call message outcome c named waits says =
      let named' : string_of (at "id" message) ≡ some id = rw named refl in
      rw (named', receive, waits, answer_of-Says string message outcome says) refl

  receive_unknown :
      (id : String) (message : Fields) (c : BridgeClient)
      → at "id" message ≡ str id
      → get id c.pending ≡ none
      → receive string message c ≡ (none, c)
  unfolding receive
  receive_unknown id message c named missing =
      let named' : string_of (at "id" message) ≡ some id = rw named refl in
      rw (named', receive, missing) refl

  -- When a timer has been due that runs for an identifier, an answer under that identifier is
  -- ignored, whichever request it is for.
  pub receive-on_timeout :
      (t : Timer) (call : ℕ) (message : Fields) (c : BridgeClient)
      → timer_of call c.timers ≡ some t
      → at "id" message ≡ str t.id
      → receive string message (on_timeout call c) ≡ (none, on_timeout call c)
  unfolding on_timeout settle
  receive-on_timeout t call message c runs named =
      receive_unknown t.id message (on_timeout call c) named
        (rw (runs, on_timeout) (get-delete t.id t.id c.pending ∙ rw (eq_refl t.id) refl))

  module _ (parse : Text → Parsed) (number : Text → Option ℕ) (max_message_bytes : ℕ) where
    receive_one :
        (id : String) (call : ℕ) (message : Fields) (body : Text) (outcome : Outcome)
        (c : BridgeClient)
        → parse body ≡ parsed (obj message)
        → at "id" message ≡ str id
        → get id c.pending ≡ some call
        → Says string message outcome
        → receive_each string parse (body ∷ []) c
          ≡ settle call outcome (record c { pending = delete id c.pending })
    unfolding receive_each receive_text members_of
    receive_one id call message body outcome c read named waits says =
        let reading : members_of string (parse body) ≡ inr message = rw read refl in
        ap
          (λ (r : Option Thrown × BridgeClient). elim r.0 [
            | none ↦ r.1
            | some thrown ↦ drop_all thrown r.1
          ])
          (ap (λ r. receive_text string r c) reading
            ∙ receive_waiting id call message outcome c named waits says)

    -- If `Number` reads the decimal numbers up to the limit, and nothing is left of earlier chunks,
    -- the frame of a message that reads as an object, with the identifier of a request that waits,
    -- settles that request with the outcome that the message says, takes it off the map, stops its
    -- timer, and changes nothing else. A message says its result where it has no error, the error
    -- that it names where that is one of the program's, and a failed command otherwise, if `String`
    -- gives a text for the error's message.
    pub on_data-encode :
        ((n : ℕ) → n ≤ max_message_bytes → number (decimal n) ≡ some n)
        → (id : String) (call : ℕ) (message : Fields) (body : Text) (outcome : Outcome)
          (c : BridgeClient)
        → c.buffer ≡ []
        → length body ≤ max_message_bytes
        → parse body ≡ parsed (obj message)
        → at "id" message ≡ str id
        → get id c.pending ≡ some call
        → Says string message outcome
        → on_data string parse number max_message_bytes (encode_content_length_frame body) c
          ≡ record c {
            buffer = [];
            pending = delete id c.pending;
            timers = clear_timeout call c.timers;
            settlements = c.settlements ++ (call, outcome) ∷ [];
          }
    unfolding on_data settle
    on_data-encode reads id call message body outcome c empty short read named waits says =
        let whole : push number max_message_bytes c.buffer (encode_content_length_frame body)
            ≡ (ok (body ∷ []), []) =
          rw empty (
            ap (push number max_message_bytes [])
              (sym (append-nil (encode_content_length_frame body)))
            ∙ push-encode_all number max_message_bytes reads (body ∷ []) (short, tt)) in
        rw whole (
          receive_one id call message body outcome (record c { buffer = [] }) read named waits says)
