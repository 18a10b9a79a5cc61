-- ===== src/BridgeClient/Outcomes.antt =====
-- What an answer comes to for the request that it is for: `Says` is a description of it beside the code.
use emacs_llvm.Base.{
  ℕ, inl, inr, ◌⊎◌, ◌≢◌, arith, eq_iff, Option-cases, ◌≡◌, refl, ap, String, none, some, List, [],
  ◌∷◌, ◌++◌,
}
use emacs_llvm.Base.Map.{get, delete}
use emacs_llvm.Base.Json.{Json, undefined, null, bool, num, str, arr, obj, Fields, field, end, at}
use emacs_llvm.Base.Values.{string_of, object_of, record_of, or_else}
use emacs_llvm.Protocol.Errors.{
  Thrown, ErrorCode, code_name, operator, OperatorError, operator_error, invalid_argument,
  schema_validation, auth_failed, instance_not_found, emacs_disconnected, session_not_found,
  session_expired, target_not_found, target_stale, state_conflict, analysis_unresolved,
  mutation_locked, permission_denied, policy_denied, command_not_found, command_not_interactive,
  command_failed, command_quit, key_parse_failed, key_unbound, minibuffer_unexpected,
  command_timeout, wait_timeout, transaction_not_found, transaction_conflict, rollback_failed,
  native_driver_unavailable, accessibility_not_granted, screen_capture_not_granted, focus_failed,
  frontmost_mismatch, user_interference, input_injection_failed, capture_failed,
  external_side_effect, internal,
}
use emacs_llvm.BridgeClient.{BridgeClient, Outcome, rejected, resolved, clear_timeout}
use emacs_llvm.BridgeClient.Messages.{
  code_in, known_code, details_of, worded, rejection, answer_of, receive,
}

known_code-some : (code : ErrorCode) → known_code (str (code_name code)) ≡ some code
unfolding code_in code_name
known_code-some invalid_argument = refl
known_code-some schema_validation = refl
known_code-some auth_failed = refl
known_code-some instance_not_found = refl
known_code-some emacs_disconnected = refl
known_code-some session_not_found = refl
known_code-some session_expired = refl
known_code-some target_not_found = refl
known_code-some target_stale = refl
known_code-some state_conflict = refl
known_code-some analysis_unresolved = refl
known_code-some mutation_locked = refl
known_code-some permission_denied = refl
known_code-some policy_denied = refl
known_code-some command_not_found = refl
known_code-some command_not_interactive = refl
known_code-some command_failed = refl
known_code-some command_quit = refl
known_code-some key_parse_failed = refl
known_code-some key_unbound = refl
known_code-some minibuffer_unexpected = refl
known_code-some command_timeout = refl
known_code-some wait_timeout = refl
known_code-some transaction_not_found = refl
known_code-some transaction_conflict = refl
known_code-some rollback_failed = refl
known_code-some native_driver_unavailable = refl
known_code-some accessibility_not_granted = refl
known_code-some screen_capture_not_granted = refl
known_code-some focus_failed = refl
known_code-some frontmost_mismatch = refl
known_code-some user_interference = refl
known_code-some input_injection_failed = refl
known_code-some capture_failed = refl
known_code-some external_side_effect = refl
known_code-some internal = refl

code_in-none :
    (name : String) (codes : List ErrorCode)
    → ((code : ErrorCode) → name ≢ code_name code)
    → code_in name codes ≡ none
unfolding code_in
code_in-none name [] unknown = refl
code_in-none name (code ∷ codes) unknown =
    ground (arith, code_in-none name codes unknown, unknown code, eq_iff (code_name code) name)

known_code-none : (v : Json) → ((code : ErrorCode) → v ≢ str (code_name code)) → known_code v ≡ none
known_code-none (str name) unknown = code_in-none name _ (λ code e. unknown code (ap str e))
known_code-none undefined unknown = refl
known_code-none null unknown = refl
known_code-none (bool b) unknown = refl
known_code-none (num n) unknown = refl
known_code-none (arr xs) unknown = refl
known_code-none (obj fs) unknown = refl

module _ (string : Json → Thrown ⊎ String) where
  -- What an answer says to the caller of its request: its result, if it has no error; the error that
  -- it names, if that is one of the program's; a failed command otherwise.
  pub data Says (message : Fields) : Outcome → Type 0 where
    result : object_of (at "error" message) ≡ none → Says message (resolved (at "result" message))
    known :
        (fs : Fields) (code : ErrorCode) (text : String)
        → object_of (at "error" message) ≡ some fs
        → at "code" (record_of (at "data" fs)) ≡ str (code_name code)
        → string (or_else (at "message" fs) (str (code_name code))) ≡ inr text
        → Says message (
            rejected (
              operator
                (operator_error code text (details_of (at "details" (record_of (at "data" fs)))))))
    unknown :
        (fs : Fields) (text : String)
        → object_of (at "error" message) ≡ some fs
        → ((code : ErrorCode) → at "code" (record_of (at "data" fs)) ≢ str (code_name code))
        → string (or_else (at "message" fs) (str "Bridge JSON-RPC error.")) ≡ inr text
        → Says message (
            rejected (
              operator (
                operator_error command_failed text
                  (some (field "rpc_code" (or_else (at "code" fs) null) end)))))

  pub answer_of-Says :
      (message : Fields) (outcome : Outcome)
      → Says message outcome
      → answer_of string message ≡ inr outcome
  unfolding answer_of rejection worded
  answer_of-Says message _ (result plain) = rw (answer_of, plain) refl
  answer_of-Says message _ (known fs code text carries named reads) =
      rw (carries, answer_of, rejection, named, known_code-some code, worded, reads) refl
  answer_of-Says message _ (unknown fs text carries other reads) =
      rw
        (
          carries,
          answer_of,
          rejection,
          known_code-none (at "code" (record_of (at "data" fs))) other,
          worded,
          reads,
        )
        refl

  worded_throws :
      (value : Json) (error_of : String → OperatorError) (thrown : Thrown)
      → string value ≡ inl thrown
      → worded string value error_of ≡ inl thrown
  unfolding worded
  worded_throws value error_of thrown throws = rw (worded, throws) refl

  -- An answer whose error has a message that `String` throws for is lost: its request is taken off
  -- the map and its timer stopped, and neither its promise is resolved nor rejected.
  pub receive_lost :
      (id : String) (call : ℕ) (message fs : Fields) (thrown : Thrown) (c : BridgeClient)
      → at "id" message ≡ str id
      → get id c.pending ≡ some call
      → object_of (at "error" message) ≡ some fs
      → ((other : Json) → string (or_else (at "message" fs) other) ≡ inl thrown)
      → receive string message c ≡ (
        some thrown,
        record c {
          pending = delete id c.pending;
          timers = clear_timeout call c.timers;
          forgotten = c.forgotten ++ call ∷ [];
        },
      )
  unfolding receive answer_of rejection worded
  receive_lost id call message fs thrown c named waits carries throws =
      let named' : string_of (at "id" message) ≡ some id = rw named refl in
      elim (Option-cases (known_code (at "code" (record_of (at "data" fs))))) [
        | inl other ↦
            rw
              (
                named',
                receive,
                waits,
                carries,
                answer_of,
                rejection,
                other,
                worded_throws _ _ thrown (throws (str "Bridge JSON-RPC error.")),
              )
              refl
        | inr (code, coded) ↦
            rw
              (
                named',
                receive,
                waits,
                carries,
                answer_of,
                rejection,
                coded,
                worded_throws _ _ thrown (throws (str (code_name code))),
              )
              refl
      ]
