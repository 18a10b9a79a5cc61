-- ===== src/Router/Call/Replay.antt =====
-- packages/mcp-server/src/tools/toolRouter.ts: a call that is made again with its request identifier.
use emacs_llvm.Base.{
  ℕ, suc, ◌+◌, ◌-◌, ◌<◌, String, none, some, lt→ltb, sym, ap, ◌∙◌, ◌≡◌, ◌≢◌, refl, arith, eq_iff,
}
use emacs_llvm.Base.Json.{Json, obj, Fields, at}
use emacs_llvm.Base.Values.{string_of}
use emacs_llvm.Base.Exec.{pure, lift, reads, writes, after, ◌>>=◌}
use emacs_llvm.Idempotency.{lookup, store}
use emacs_llvm.Idempotency.Laws.{lookup-store}
use emacs_llvm.Base.Map.{get}
use emacs_llvm.Protocol.Errors.{Result, ok, err}
use emacs_llvm.Protocol.Envelope.{ToolEnvelope}
use emacs_llvm.Protocol.Validation.{assert_object}
use emacs_llvm.Sessions.{EmacsSession}
use emacs_llvm.Router.State.{Server, Tool, now}
use emacs_llvm.Router.Call.{request_id_of, cache_key, cached, remember, perform, call}

request_id_given :
    (args : Fields) (id : String) (s : Server)
    → string_of (at "request_id" args) ≡ some id
    → id ≢ ""
    → request_id_of args s ≡ (ok id, s)
unfolding request_id_of pure
request_id_given args id s given proper = ground (arith, eq_iff id "")

cached_known :
    (key : String) (envelope : ToolEnvelope) (s : Server)
    → (lookup key (s.world.clock s.readings) s.cache).0 ≡ some envelope
    → cached key s ≡ (
      ok (some envelope),
      record s {
        readings = suc s.readings;
        cache = (lookup key (s.world.clock s.readings) s.cache).1;
      },
    )
unfolding cached now pure reads writes ◌>>=◌
cached_known key envelope s known = rw known refl

cached_new :
    (key : String) (s : Server)
    → get key s.cache.values ≡ none
    → cached key s ≡ (ok none, record s { readings = suc s.readings })
unfolding cached now pure reads writes ◌>>=◌ lookup get
cached_new key s new = rw new refl

-- What holds of every answer of a block and the state beside it.
record Finishes {A : Type 0} (Q : A → Server → Type 0) (m : Tool A) : Type 0 where
  pub run : (s : Server) (a : A) (s' : Server) → m s ≡ (ok a, s') → Q a s'

Finishes-bind :
    {A : Type 0} {B : Type 0} {Q : B → Server → Type 0} (m : Tool A) (f : A → Tool B)
    → ((a : A) → Finishes Q (f a))
    → Finishes Q (m >>= f)
unfolding ◌>>=◌
Finishes-bind {A} {B} {Q} m f each = record { run = λ s b s' h. behind (m s) b s' h }
  where
    behind : (r : Result A × Server) (b : B) (s' : Server) → after r f ≡ (ok b, s') → Q b s'
    behind (ok a, t) b s' h = (each a).run t b s' h
    behind (err e, t) b s' h = cc

-- The envelope has just been stored, at the last reading of the clock.
abbrev JustStored : String → ToolEnvelope → Server → Type 0
JustStored key envelope s' =
    (t : Server) × (s' ≡ record t {
      readings = suc t.readings;
      cache = store key envelope (t.world.clock t.readings) t.cache;
    })

Finishes-remember :
    (key : String) (envelope : ToolEnvelope) → Finishes (JustStored key) (remember key envelope)
unfolding remember now pure reads writes ◌>>=◌
Finishes-remember key envelope = record {
  run = λ s a s' h.
      let same : envelope ≡ a = cc (ap (λ (r : Result ToolEnvelope × Server). r.0) h) in
      (
        s,
        sym (ap (λ (r : Result ToolEnvelope × Server). r.1) h)
            ∙ ap
                (λ (v : ToolEnvelope). record s {
                  readings = suc s.readings;
                  cache = store key v (s.world.clock s.readings) s.cache;
                })
                same,
      );
}

Finishes-perform :
    (workflow : Fields → EmacsSession → Tool Json) (started : ℕ) (name id : String) (args : Fields)
    → Finishes (JustStored (cache_key name id)) (perform workflow started name id args)
unfolding perform
Finishes-perform workflow started name id args = Finishes-bind _ _ λ audit_id.
    Finishes-bind _ _ λ outer. Finishes-bind _ _ λ a. Finishes-bind _ _ λ r.
      Finishes-bind _ _
        λ h. Finishes-bind _ _ λ b. Finishes-bind _ _ λ c. Finishes-remember (cache_key name id) _

-- A call that is new to the cache ends with its answer stored.
call_stores :
    (workflow : Fields → EmacsSession → Tool Json) (name id : String) (args : Fields)
    (envelope : ToolEnvelope) (s s' : Server)
    → string_of (at "request_id" args) ≡ some id
    → id ≢ ""
    → get (cache_key name id) s.cache.values ≡ none
    → call workflow name (obj args) s ≡ (ok envelope, s')
    → JustStored (cache_key name id) envelope s'
unfolding call assert_object now lift ◌>>=◌ pure
call_stores workflow name id args envelope s s' given proper new h =
    let s1 : Server = record s { readings = suc s.readings } in
    (Finishes-perform workflow (s.world.clock s.readings) name id args).run
      (record s1 { readings = suc s1.readings }) envelope s'
      (rw (request_id_given args id s1 given proper, cached_new (cache_key name id) s1 new) at h)

last_reading : (n : ℕ) → suc n - 1 ≡ n
last_reading n = omega arith

-- A call whose request identifier is new to the cache under the tool's name, and that comes to an
-- answer, has this answer kept: a later call of that tool with that identifier, whatever its other
-- arguments, gives the same answer, if the cache has not changed since then and its time to live has
-- not passed since the last reading of the clock of the first call. The later call sends nothing,
-- touches no ticket and no session, and adds no line to the audit file.
pub call_again :
    (workflow : Fields → EmacsSession → Tool Json) (name id : String) (args args' : Fields)
    (envelope : ToolEnvelope) (s s' t : Server)
    → string_of (at "request_id" args) ≡ some id
    → string_of (at "request_id" args') ≡ some id
    → id ≢ ""
    → get (cache_key name id) s.cache.values ≡ none
    → call workflow name (obj args) s ≡ (ok envelope, s')
    → t.cache ≡ s'.cache
    → t.world.clock (suc t.readings) < s'.world.clock (s'.readings - 1) + s'.cache.ttl_ms
    → let (r, t') = call workflow name (obj args') t in
      (r ≡ ok envelope)
      × (t'.sent ≡ t.sent)
      × (t'.audit ≡ t.audit)
      × (t'.sessions ≡ t.sessions)
      × (t'.tickets ≡ t.tickets)
unfolding call assert_object now lift ◌>>=◌ pure store
call_again workflow name id args args' envelope s s' t given given' proper new first kept early =
    let key = cache_key name id in
    let (u, stored) = call_stores workflow name id args envelope s s' given proper new first in
    let reading = t.world.clock (suc t.readings) in
    let at_store = u.world.clock u.readings in
    let early' = rw stored at early in
    let in_time : reading < at_store + u.cache.ttl_ms = rw (last_reading u.readings) at early' in
    let known : (lookup key reading t.cache).0 ≡ some envelope =
      ap (λ c. (lookup key reading c).0) (kept ∙ ap (λ (x : Server). x.cache) stored)
      ∙ lookup-store key envelope at_store reading u.cache
      ∙ ground (arith, lt→ltb reading (at_store + u.cache.ttl_ms) in_time) in
    let t1 : Server = record t { readings = suc t.readings } in
    rw (request_id_given args' id t1 given' proper, cached_known key envelope t1 known)
      (refl, refl, refl, refl, refl)
