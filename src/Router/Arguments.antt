-- ===== src/Router/Arguments.antt =====
-- packages/mcp-server/src/tools/toolRouter.ts: the functions that read arguments and answers, and
-- build the parameters of requests.
use emacs_llvm.Base.{ℕ, String, Bool, Option, none, some, List, [], ◌∷◌, any, if◌then◌else◌, str_eq}
use emacs_llvm.Base.Json.{
  Json, undefined, null, bool, num, str, arr, obj, Items, nil, cons, Fields, end, field, at, Number,
  is_finite, nat,
}
use emacs_llvm.Base.Values.{
  object, put, or_else, record_of, object_of, string_of, number_of, is_true, string_or_null,
  nullable,
}
use emacs_llvm.Protocol.Errors.{Result, ok, throw, ◌>>=◌, internal, invalid_argument}
use emacs_llvm.Protocol.Envelope.{StateSummary}
use emacs_llvm.Sessions.{EmacsSession}
use emacs_llvm.Tickets.{
  VerificationAttempt, VerificationTicket, VerificationRisk, low, high, unknown,
}

abbrev pub one_of : String → List String → Bool
one_of s names = any (λ n. str_eq s n) names

-- `value.key`; of `null` and `undefined` no member can be read.
abbrev pub member : String → Json → Result Json
member key undefined = throw internal "Cannot read properties of undefined" none
member key null = throw internal "Cannot read properties of null" none
member key value = ok (at key (record_of value))

-- A member that is there, unless its text is empty.
abbrev unless_empty : String → Option String → Fields → Fields
unless_empty key none rest = rest
unless_empty key (some s) rest = if str_eq s "" then rest else field key (str s) rest

unfoldable pub snake_target : EmacsSession → Json
snake_target session =
    let t = session.target in
    obj (
      unless_empty "frame_id" t.frame_id (
        unless_empty "window_id" t.window_id (
          unless_empty "buffer_id" t.buffer_id
            (unless_empty "project_root" t.project_root (unless_empty "file" t.file end)))))

-- A text that is not empty, or else another one.
abbrev pub text_over : Json → Option String → Option String
text_over (str s) other = if str_eq s "" then other else some s
text_over _ other = other

unfoldable pub native_target : EmacsSession → ℕ → Json → Json → Json
native_target session pid window_title window_identifier = obj (
    field "pid" (nat pid) (
      unless_empty "window_title" (text_over window_title session.target.frame_title) (
        unless_empty "window_identifier"
          (text_over window_identifier session.target.native_window_identifier) end)))

unfoldable pub policy_context : EmacsSession → Json
policy_context session = object (
    ("profile", str session.permission_profile)
    ∷ ("project_root", nullable session.target.project_root)
    ∷ [])

-- The members that are not named.
unfoldable pub without : List String → Fields → Fields
without names end = end
without names (field k v fs) =
    let rest = without names fs in if one_of k names then rest else field k v rest

abbrev adapter_of : Json → Json → Json
adapter_of (str s) other = str s
adapter_of _ other = string_or_null other

unfoldable pub normalize_structured_evaluation : Json → Result VerificationAttempt
normalize_structured_evaluation undefined =
    throw internal "Cannot read properties of undefined" none
normalize_structured_evaluation null = throw internal "Cannot read properties of null" none
normalize_structured_evaluation response =
    let dispatch = record_of (at "evaluation" (record_of response)) in
    let result = record_of (or_else (at "result" dispatch) (obj dispatch)) in
    ok (record {
      adapter = adapter_of (at "adapter" dispatch) (at "adapter" result);
      completed = is_true (at "completed" result);
      value = at "value" result;
      condition = at "condition" result;
      stderr = at "stderr" result;
      metadata = obj (record_of (at "metadata" result));
      more =
          without ("adapter" ∷ "completed" ∷ "value" ∷ "condition" ∷ "stderr" ∷ "metadata" ∷ [])
            result;
    })

abbrev finite_of : Json → Option Number
finite_of (num n) = if is_finite n then some n else none
finite_of _ = none

-- An array of two elements.
abbrev pair_of : Json → Option (Json × Json)
pair_of (arr (cons a (cons b nil))) = some (a, b)
pair_of _ = none

abbrev first_finite : Option (Json × Json) → Option Number
first_finite none = none
first_finite (some (a, b)) = finite_of a

abbrev or_number : Option Number → Option Number → Option Number
or_number none other = other
or_number (some n) other = some n

unfoldable pub source_start_from_metadata : Fields → Option Number
source_start_from_metadata metadata =
    or_number (finite_of (at "source_start" metadata))
      (first_finite (pair_of (at "source_bounds" metadata)))

pub record AnalysisSourceFingerprint : Type 0 where
  pub source_sha256 : Option String
  pub source_start : Option Number
  pub source_bounds : Option (Number × Number)

abbrev both_finite : Option (Json × Json) → Option (Number × Number)
both_finite none = none
both_finite (some (a, b)) = elim (finite_of a) [
  | none ↦ none
  | some m ↦ elim (finite_of b) [ none ↦ none | some n ↦ some (m, n) ]
]

abbrev start_of : Option (Number × Number) → Option Number
start_of none = none
start_of (some (m, n)) = some m

unfoldable pub analysis_fingerprint : Json → Result AnalysisSourceFingerprint
analysis_fingerprint undefined = throw internal "Cannot read properties of undefined" none
analysis_fingerprint null = throw internal "Cannot read properties of null" none
analysis_fingerprint response =
    let level1 = record_of (at "analysis" (record_of response)) in
    let level2 =
      record_of (or_else (at "result" level1) (or_else (at "analysis" level1) (obj level1))) in
    let level3 = record_of (or_else (at "analysis" level2) (obj level2)) in
    let bounds = both_finite (pair_of (at "source_bounds" level3)) in
    ok (record {
      source_sha256 = string_of (at "source_sha256" level3);
      source_start = or_number (finite_of (at "source_start" level3)) (start_of bounds);
      source_bounds = bounds;
    })

abbrev text_or_empty : Json → String
text_or_empty (str s) = s
text_or_empty _ = ""

abbrev language_of_mode : String → String
language_of_mode mode =
    if one_of mode ("emacs-lisp-mode" ∷ "lisp-interaction-mode" ∷ [])
    then "elisp"
    else if one_of mode ("clojure-mode" ∷ "clojurescript-mode" ∷ "clojurec-mode" ∷ [])
    then "clojure"
    else if one_of mode
        ("lisp-mode" ∷ "common-lisp-mode" ∷ "sly-mrepl-mode" ∷ "slime-repl-mode" ∷ [])
    then "common_lisp"
    else "generic"

unfoldable pub infer_project_rename_language : Fields → Json → Result String
infer_project_rename_language args observed = elim (string_of (at "language" args)) [
  | some language ↦
      if one_of language ("generic" ∷ "elisp" ∷ "clojure" ∷ "common_lisp" ∷ [])
      then ok language
      else throw invalid_argument "Unsupported project rename language."
          (some (field "language" (str language) end))
  | none ↦ member "buffer" observed >>= λ buffer.
      ok (language_of_mode (text_or_empty (at "major_mode" (record_of buffer))))
]

abbrev members_or_none : Option Fields → Fields
members_or_none none = end
members_or_none (some fs) = fs

abbrev summary_of : Fields → StateSummary
summary_of value =
    let buffer = members_or_none (object_of (at "buffer" value)) in
    let cursor = members_or_none (object_of (at "cursor" value)) in
    record {
      state_seq = number_of (at "state_seq" value);
      buffer_tick = number_of (at "buffer_tick" buffer);
      buffer_id = string_of (at "id" buffer);
      major_mode = string_of (at "major_mode" buffer);
      point = number_of (at "point" cursor);
    }

unfoldable pub state_summary : Json → Option StateSummary
state_summary observed = elim (object_of observed) [ none ↦ none | some fs ↦ some (summary_of fs) ]

unfoldable pub attempt_json : VerificationAttempt → Json
attempt_json a = obj (
    put "metadata" a.metadata (
      put "completed" (bool a.completed) (
        put "adapter" a.adapter
          (put "stderr" a.stderr (put "condition" a.condition (put "value" a.value a.more))))))

abbrev pub risk_name : VerificationRisk → String
risk_name low = "low"
risk_name high = "high"
risk_name unknown = "unknown"

abbrev attempt_items : List VerificationAttempt → Items
attempt_items [] = nil
attempt_items (a ∷ more) = cons (attempt_json a) (attempt_items more)

unfoldable pub attempts_json : List VerificationAttempt → Json
attempts_json attempts = arr (attempt_items attempts)

unfoldable pub ticket_json : VerificationTicket → Json
ticket_json t = object (
    ("ticketId", str t.ticket_id)
    ∷ ("sessionId", str t.session_id)
    ∷ ("adapter", t.adapter)
    ∷ ("operation", str t.operation)
    ∷ ("timeoutMs", nat t.timeout_ms)
    ∷ ("maxAttempts", nat t.max_attempts)
    ∷ ("sideEffectRisk", str (risk_name t.side_effect_risk))
    ∷ ("allowRiskyRerun", bool t.allow_risky_rerun)
    ∷ ("attempts", attempts_json t.attempts)
    ∷ ("createdAt", nat t.created_at)
    ∷ ("expiresAt", nat t.expires_at)
    ∷ [])
