-- ===== src/Idempotency.antt =====
-- packages/mcp-server/src/idempotency.ts: the cache of finished tool calls. The clock that the
-- constructor takes is read once in each operation, so its value is an argument `now` of each.
pub mod Laws
pub mod Replay
use emacs_llvm.Base.{
  ℕ, suc, ◌+◌, ◌≤◌, ◌<◌, ◌≡◌, String, Bool, true, false, ◌&&◌, not, Option, none, some, [],
  if◌then◌else◌, leb, ltb, length,
}
use emacs_llvm.Base.Map.{JsMap, get, set, delete, retain, has}
use emacs_llvm.Base.Evict.{evict}

pub record Entry {ℓ} (T : Type ℓ) : Type ℓ where
  pub value : T
  pub expires_at : ℕ

pub record IdempotencyCache {ℓ} (T : Type ℓ) : Type ℓ where
  pub ttl_ms : ℕ
  pub max_entries : ℕ
  pub values : JsMap (Entry T)

module _ {ℓ} {T : Type ℓ} where
  -- The constructor; `none` is its `RangeError`.
  unfoldable pub create : ℕ → ℕ → Option (IdempotencyCache T)
  create ttl_ms max_entries =
      if ltb 0 ttl_ms && ltb 0 max_entries
      then some (record { ttl_ms = ttl_ms; max_entries = max_entries; values = [] })
      else none

  abbrev pub is_live : ℕ → Entry T → Bool
  is_live now entry = if leb entry.expires_at now then false else true

  unfoldable pub prune_expired : ℕ → JsMap (Entry T) → JsMap (Entry T)
  prune_expired now values = retain (is_live now) values

  unfoldable pub lookup : String → ℕ → IdempotencyCache T → Option T × IdempotencyCache T
  lookup key now c = elim (get key c.values) [
    | none ↦ (none, c)
    | some hit ↦
        if leb hit.expires_at now
        then (none, record c { values = delete key c.values })
        else (some hit.value, c)
  ]

  -- Deleting a key that is not there changes nothing, as the source's own test has it.
  abbrev pub others : String → ℕ → IdempotencyCache T → JsMap (Entry T)
  others key now c =
      let live = prune_expired now c.values in if has key live then delete key live else live

  -- The loop runs at most once for each entry.
  unfoldable pub store : String → T → ℕ → IdempotencyCache T → IdempotencyCache T
  store key value now c =
      let rest = others key now c in
      record c {
        values =
            set key (record { value = value; expires_at = now + c.ttl_ms })
              (evict (λ first. false) c.max_entries (suc (length rest)) rest);
      }
