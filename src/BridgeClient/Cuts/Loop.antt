-- ===== src/BridgeClient/Cuts/Loop.antt =====
-- The loop of `onData` over messages: one list after the other, and beside the parser's buffer.
use emacs_llvm.Base.{
  ℕ, ◌≡◌, refl, sym, ap, ◌∙◌, String, Option, none, some, List, [], ◌∷◌, ◌++◌, Option-cases, inl,
  inr, ◌⊎◌,
}
use emacs_llvm.Base.Map.{JsMap, get, delete}
use emacs_llvm.Base.Bytes.{Text}
use emacs_llvm.Base.Json.{Json, Fields, at}
use emacs_llvm.Base.Values.{string_of}
use emacs_llvm.Protocol.Errors.{Thrown}
use emacs_llvm.BridgeClient.{
  BridgeClient, Outcome, rejected, settle, reject_each, reject_all, Socket, no_socket, opening,
  opened, destroyed, destroy,
}
use emacs_llvm.BridgeClient.Messages.{
  Parsed, drop_all, receive, answer_of, settled_by, receive_text, members_of, receive_each,
}

-- The parser's buffer is no concern of the requests.
abbrev pub keeping : Text → BridgeClient → BridgeClient
keeping buffer c = record c { buffer = buffer }

reject_each-keeping :
    (entries : JsMap ℕ) (outcome : Outcome) (buffer : Text) (c : BridgeClient)
    → reject_each entries outcome (keeping buffer c)
      ≡ keeping buffer (reject_each entries outcome c)
unfolding reject_each settle
reject_each-keeping [] outcome buffer c = refl
reject_each-keeping ((id, call) ∷ rest) outcome buffer c =
    reject_each-keeping rest outcome buffer (settle call outcome c)

reject_all-keeping :
    (thrown : Thrown) (buffer : Text) (c : BridgeClient)
    → reject_all thrown (keeping buffer c) ≡ keeping buffer (reject_all thrown c)
unfolding reject_all
reject_all-keeping thrown buffer c =
    ap (λ (d : BridgeClient). record d { pending = [] })
      (reject_each-keeping c.pending (rejected thrown) buffer c)

drop_all-keeping :
    (thrown : Thrown) (buffer : Text) (c : BridgeClient)
    → drop_all thrown (keeping buffer c) ≡ keeping buffer (drop_all thrown c)
unfolding drop_all
drop_all-keeping thrown buffer c = rw (reject_all-keeping thrown buffer c) refl

drop_all-pending : (thrown : Thrown) (c : BridgeClient) → (drop_all thrown c).pending ≡ []
unfolding drop_all reject_all
drop_all-pending thrown c = refl

destroy-twice : (s : Socket) → destroy (destroy s) ≡ destroy s
destroy-twice no_socket = refl
destroy-twice opening = refl
destroy-twice opened = refl
destroy-twice destroyed = refl

drop_all-twice :
    (thrown again : Thrown) (c : BridgeClient)
    → drop_all again (drop_all thrown c) ≡ drop_all thrown c
unfolding drop_all reject_all reject_each
drop_all-twice thrown again c =
    ap (λ (s : Socket). record (reject_all thrown c) { socket = s })
      (destroy-twice (reject_all thrown c).socket)

module _ (string : Json → Thrown ⊎ String) where
  settled_by-keeping :
      (r : Thrown ⊎ Outcome) (call : ℕ) (buffer : Text) (c : BridgeClient)
      → settled_by string r call (keeping buffer c)
        ≡ ((settled_by string r call c).0, keeping buffer (settled_by string r call c).1)
  unfolding settle
  settled_by-keeping (inl thrown) call buffer c = refl
  settled_by-keeping (inr outcome) call buffer c = refl

  receive-keeping :
      (message : Fields) (buffer : Text) (c : BridgeClient)
      → receive string message (keeping buffer c)
        ≡ ((receive string message c).0, keeping buffer (receive string message c).1)
  unfolding receive
  receive-keeping message buffer c = elim (Option-cases (string_of (at "id" message))) [
    | inl other ↦ rw (other, receive) refl
    | inr (id, named) ↦ elim (Option-cases (get id c.pending)) [
      | inl unknown ↦ rw (named, receive, unknown) refl
      | inr (call, waits) ↦
          rw (named, receive, waits)
            (settled_by-keeping (answer_of string message) call buffer
              (record c { pending = delete id c.pending }))
    ]
  ]

  receive_text-keeping :
      (r : Thrown ⊎ Fields) (buffer : Text) (c : BridgeClient)
      → receive_text string r (keeping buffer c)
        ≡ ((receive_text string r c).0, keeping buffer (receive_text string r c).1)
  unfolding receive_text
  receive_text-keeping (inl thrown) buffer c = refl
  receive_text-keeping (inr message) buffer c = receive-keeping message buffer c

  receive-idle :
      (message : Fields) (c : BridgeClient) → c.pending ≡ [] → (receive string message c).1 ≡ c
  unfolding receive get
  receive-idle message c none_waits = elim (Option-cases (string_of (at "id" message))) [
    | inl other ↦ rw (other, receive) refl
    | inr (id, named) ↦
        let missing : get id c.pending ≡ none = rw none_waits refl in
        rw (named, receive, missing) refl
  ]

  receive_text-idle :
      (r : Thrown ⊎ Fields) (c : BridgeClient) → c.pending ≡ [] → (receive_text string r c).1 ≡ c
  unfolding receive_text
  receive_text-idle (inl thrown) c none_waits = refl
  receive_text-idle (inr message) c none_waits = receive-idle message c none_waits

  module _ (parse : Text → Parsed) where
    -- The next message.
    abbrev one : Text → BridgeClient → Option Thrown × BridgeClient
    one text c = receive_text string (members_of string (parse text)) c

    -- How the loop goes on behind a message.
    abbrev behind : List Text → Option Thrown × BridgeClient → BridgeClient
    behind texts r = elim r.0 [
      | none ↦ receive_each string parse texts r.1
      | some thrown ↦ drop_all thrown r.1
    ]

    behind_read :
        (texts : List Text) (d : BridgeClient) (o : Option Thrown)
        → o ≡ none
        → behind texts (o, d) ≡ receive_each string parse texts d
    behind_read texts d o read = rw read refl

    behind_stopped :
        (texts : List Text) (d : BridgeClient) (o : Option Thrown) (thrown : Thrown)
        → o ≡ some thrown
        → behind texts (o, d) ≡ drop_all thrown d
    behind_stopped texts d o thrown stopped = rw stopped refl

    receive_each_cons :
        (text : Text) (texts : List Text) (c : BridgeClient)
        → receive_each string parse (text ∷ texts) c ≡ behind texts (one text c)
    unfolding receive_each
    receive_each_cons text texts c = refl

    pub receive_each-keeping :
        (texts : List Text) (buffer : Text) (c : BridgeClient)
        → receive_each string parse texts (keeping buffer c)
          ≡ keeping buffer (receive_each string parse texts c)
    receive_each-keeping [] buffer c = unfold receive_each in refl
    receive_each-keeping (text ∷ texts) buffer c =
        let (stopped, d) = one text c in
        receive_each_cons text texts (keeping buffer c)
        ∙ ap (behind texts) (receive_text-keeping (members_of string (parse text)) buffer c)
        ∙ elim (Option-cases stopped) [
          | inl e ↦
              behind_read texts (keeping buffer d) stopped e
              ∙ receive_each-keeping texts buffer d
              ∙ ap (keeping buffer) (sym (behind_read texts d stopped e))
          | inr (thrown, e) ↦
              behind_stopped texts (keeping buffer d) stopped thrown e
              ∙ drop_all-keeping thrown buffer d
              ∙ ap (keeping buffer) (sym (behind_stopped texts d stopped thrown e))
        ]
        ∙ ap (keeping buffer) (sym (receive_each_cons text texts c))

    -- After a throw the rest of the messages change nothing, whether they are looked at or not.
    receive_each-dropped :
        (texts : List Text) (thrown : Thrown) (c : BridgeClient)
        → receive_each string parse texts (drop_all thrown c) ≡ drop_all thrown c
    unfolding receive_each
    receive_each-dropped [] thrown c = refl
    receive_each-dropped (text ∷ texts) thrown c =
        let dropped = drop_all thrown c in
        let stopped = (one text dropped).0 in
        let same : (one text dropped).1 ≡ dropped =
          receive_text-idle (members_of string (parse text)) dropped (drop_all-pending thrown c) in
        receive_each_cons text texts dropped
        ∙ ap (λ d. behind texts (stopped, d)) same
        ∙ elim (Option-cases stopped) [
          | inl e ↦ behind_read texts dropped stopped e ∙ receive_each-dropped texts thrown c
          | inr (again, e) ↦
              behind_stopped texts dropped stopped again e ∙ drop_all-twice thrown again c
        ]

    pub receive_each-append :
        (first second : List Text) (c : BridgeClient)
        → receive_each string parse (first ++ second) c
          ≡ receive_each string parse second (receive_each string parse first c)
    unfolding receive_each
    receive_each-append [] second c = refl
    receive_each-append (text ∷ first) second c = elim (Option-cases (one text c).0) [
      | inl read ↦ rw (read, receive_each) (receive_each-append first second (one text c).1)
      | inr (thrown, stopped) ↦
          rw (stopped, receive_each) (sym (receive_each-dropped second thrown (one text c).1))
    ]
