-- ===== src/BridgeClient/Accounts.antt =====
-- The books of a client of the bridge: every request has been settled once, or its timer runs, or its
-- answer threw.
pub mod Sent
use emacs_llvm.Base.{
  ℕ, ◌+◌, ◌<◌, ◌≡◌, refl, String, Option, none, some, List, [], ◌∷◌, ◌++◌, arith, if◌then◌else◌,
  ltb, ◌==◌, eq_iff, inl, inr, ◌⊎◌, Option-cases,
}
use emacs_llvm.Base.Map.{
  JsMap, get, set, delete, get-set, get-delete, Distinct, set-Distinct, delete-Distinct,
}
use emacs_llvm.Base.Bytes.{Text}
use emacs_llvm.Base.Json.{Json, Fields}
use emacs_llvm.Protocol.Errors.{OperatorError, Thrown, Result, ok, err}
use emacs_llvm.BridgeClient.{
  Timer, Outcome, rejected, BridgeClient, clear_timeout, timer_of, settle, reject_each, reject_all,
  on_timeout, timed_out,
}
use emacs_llvm.BridgeClient.Requests.{send, request, may_send, request_id, timeout_or}

-- How often a promise was settled, and how many timers of a request run.
abbrev pub times : ℕ → List (ℕ × Outcome) → ℕ
times n [] = 0
times n ((m, outcome) ∷ rest) = (if m == n then 1 else 0) + times n rest

abbrev pub running : ℕ → List Timer → ℕ
running n [] = 0
running n (t ∷ ts) = (if t.call == n then 1 else 0) + running n ts

-- How often an answer to a request threw, after the request was taken off the map.
abbrev pub losses : ℕ → List ℕ → ℕ
losses n [] = 0
losses n (m ∷ rest) = (if m == n then 1 else 0) + losses n rest

abbrev issued : ℕ → ℕ → ℕ
issued n calls = if ltb n calls then 1 else 0

abbrev id_of : Option Timer → Option String
id_of none = none
id_of (some t) = some t.id

-- The identifier that a request's timer was set for, while it runs.
abbrev pub owner : ℕ → List Timer → Option String
owner n ts = id_of (timer_of n ts)

abbrev pub Accounted : BridgeClient → Type 0
Accounted c =
    (n : ℕ) → times n c.settlements + running n c.timers + losses n c.forgotten ≡ issued n c.calls

abbrev pub Linked : JsMap ℕ → List Timer → Type 0
Linked pending timers =
    (id : String) (call : ℕ) → get id pending ≡ some call → owner call timers ≡ some id

pub record IsValid (c : BridgeClient) : Type 0 where
  pub distinct : Distinct c.pending
  pub accounted :
      (n : ℕ) → times n c.settlements + running n c.timers + losses n c.forgotten ≡ issued n c.calls
  pub linked :
      (id : String) (call : ℕ) → get id c.pending ≡ some call → owner call c.timers ≡ some id

times-append :
    (n call : ℕ) (outcome : Outcome) (xs : List (ℕ × Outcome))
    → times n (xs ++ (call, outcome) ∷ []) ≡ times n xs + (if call == n then 1 else 0)
times-append n call outcome [] = ground arith
times-append n call outcome ((m, o) ∷ xs) = ground (arith, times-append n call outcome xs)

losses-append :
    (n call : ℕ) (xs : List ℕ)
    → losses n (xs ++ call ∷ []) ≡ losses n xs + (if call == n then 1 else 0)
losses-append n call [] = ground arith
losses-append n call (m ∷ xs) = ground (arith, losses-append n call xs)

running-clear :
    (n call : ℕ) (ts : List Timer)
    → running n (clear_timeout call ts) ≡ (if call == n then 0 else running n ts)
unfolding clear_timeout
running-clear n call [] = ground arith
running-clear n call (t ∷ ts) = ground (arith, running-clear n call ts)

owner-clear :
    (n call : ℕ) (ts : List Timer)
    → owner n (clear_timeout call ts) ≡ (if call == n then none else owner n ts)
unfolding clear_timeout timer_of
owner-clear n call [] = ground arith
owner-clear n call (t ∷ ts) = ground (arith, owner-clear n call ts)

pub owner-running :
    (n : ℕ) (ts : List Timer) (id : String) → owner n ts ≡ some id → 0 < running n ts
unfolding timer_of
owner-running n [] id h = cc
owner-running n (t ∷ ts) id h = ground (arith, owner-running n ts id)

-- A request whose timer runs is settled.
settle-Accounted :
    (call : ℕ) (outcome : Outcome) (c : BridgeClient)
    → Accounted c
    → 0 < running call c.timers
    → Accounted (settle call outcome c)
unfolding settle
settle-Accounted call outcome c a r n =
    ground
      (arith, times-append n call outcome c.settlements, running-clear n call c.timers, a n, a call)

-- The timers of the requests that wait under other identifiers run on.
Linked-delete :
    (id : String) (call : ℕ) (pending : JsMap ℕ) (timers : List Timer)
    → Linked pending timers
    → owner call timers ≡ some id
    → Linked (delete id pending) (clear_timeout call timers)
Linked-delete id call pending timers linked own j n e =
    ground (arith, get-delete id j pending, eq_iff id j, owner-clear n call timers, linked j n)

pub settle-IsValid :
    (id : String) (call : ℕ) (outcome : Outcome) (c : BridgeClient)
    → owner call c.timers ≡ some id
    → IsValid c
    → IsValid (settle call outcome (record c { pending = delete id c.pending }))
unfolding settle
settle-IsValid id call outcome c own v = record {
  distinct = delete-Distinct id c.pending v.distinct;
  accounted = settle-Accounted call outcome c v.accounted (owner-running call c.timers id own);
  linked = Linked-delete id call c.pending c.timers v.linked own;
}

-- The request is taken off the map, but its answer throws.
abbrev lost : String → ℕ → BridgeClient → BridgeClient
lost id call c = record c {
  pending = delete id c.pending;
  timers = clear_timeout call c.timers;
  forgotten = c.forgotten ++ call ∷ [];
}

lost-Accounted :
    (id : String) (call : ℕ) (c : BridgeClient)
    → Accounted c
    → 0 < running call c.timers
    → Accounted (lost id call c)
lost-Accounted id call c a r n =
    ground (arith, losses-append n call c.forgotten, running-clear n call c.timers, a n, a call)

pub lost-IsValid :
    (id : String) (call : ℕ) (c : BridgeClient)
    → owner call c.timers ≡ some id
    → IsValid c
    → IsValid (lost id call c)
lost-IsValid id call c own v = record {
  distinct = delete-Distinct id c.pending v.distinct;
  accounted = lost-Accounted id call c v.accounted (owner-running call c.timers id own);
  linked = Linked-delete id call c.pending c.timers v.linked own;
}

Linked-tail :
    (id : String) (call : ℕ) (rest : JsMap ℕ) (timers : List Timer)
    → get id rest ≡ none
    → Linked ((id, call) ∷ rest) timers
    → Linked rest (clear_timeout call timers)
unfolding get
Linked-tail id call rest timers apart linked j n e =
    ground (arith, eq_iff id j, owner-clear n call timers, linked j n, linked id call, eq_iff id id)

reject_each-Accounted :
    (entries : JsMap ℕ) (outcome : Outcome) (c : BridgeClient)
    → Distinct entries
    → Linked entries c.timers
    → Accounted c
    → Accounted (reject_each entries outcome c)
unfolding reject_each settle get
reject_each-Accounted [] outcome c d linked a = a
reject_each-Accounted ((id, call) ∷ rest) outcome c (apart, d) linked a =
    let own : owner call c.timers ≡ some id = linked id call (ground (arith, eq_iff id id)) in
    reject_each-Accounted rest outcome (settle call outcome c) d
      (Linked-tail id call rest c.timers apart linked)
      (settle-Accounted call outcome c a (owner-running call c.timers id own))

pub reject_all-IsValid :
    (thrown : Thrown) (c : BridgeClient) → IsValid c → IsValid (reject_all thrown c)
unfolding reject_all get
reject_all-IsValid thrown c v = record {
  distinct = tt;
  accounted = reject_each-Accounted c.pending (rejected thrown) c v.distinct v.linked v.accounted;
  linked = λ id call e. cc;
}

pub on_timeout-IsValid : (call : ℕ) (c : BridgeClient) → IsValid c → IsValid (on_timeout call c)
unfolding on_timeout
on_timeout-IsValid call c v = elim (Option-cases (timer_of call c.timers)) [
  | inl stopped ↦ rw (stopped, on_timeout) v
  | inr (t, runs) ↦
      rw (runs, on_timeout) (settle-IsValid t.id call (timed_out t) c (rw runs refl) v)
]

stopped-idle : (n : ℕ) (ts : List Timer) → timer_of n ts ≡ none → running n ts ≡ 0
unfolding timer_of
stopped-idle n [] h = refl
stopped-idle n (t ∷ ts) h = ground (arith, stopped-idle n ts)

-- In a client whose books are in order, a request that was made has been settled exactly once when
-- its timer has been due, by then or before, unless its answer threw.
pub on_timeout-settled :
    (call : ℕ) (c : BridgeClient)
    → IsValid c
    → call < c.calls
    → losses call c.forgotten ≡ 0
    → times call (on_timeout call c).settlements ≡ 1
unfolding on_timeout settle
on_timeout-settled call c v h read = elim (Option-cases (timer_of call c.timers)) [
  | inl stopped ↦
      rw (stopped, on_timeout)
        (ground (arith, v.accounted call, stopped-idle call c.timers stopped))
  | inr (t, runs) ↦
      rw (runs, on_timeout)
        (ground (
          arith,
          times-append call call (timed_out t) c.settlements,
          v.accounted call,
          owner-running call c.timers t.id (rw runs refl),
        ))
]
