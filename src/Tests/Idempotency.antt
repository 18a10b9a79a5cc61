-- ===== src/Tests/Idempotency.antt =====
-- The idempotency cache at concrete requests.
use emacs_llvm.Base.{
  ℕ, suc, ◌-◌, ◌≡◌, ◌≢◌, refl, String, some, [], ◌∷◌, ◌++◌, arith, length, drop, eq_iff,
}
use emacs_llvm.Base.Map.{get, set, delete, retain}
use emacs_llvm.Base.Evict.{evict}
use emacs_llvm.Idempotency.{IdempotencyCache, lookup, store, prune_expired}
use emacs_llvm.Idempotency.Laws.{IsValid, survivors, values-store}
use emacs_llvm.Idempotency.Replay.{looks, stores, apply_all, replay}

abbrev empty : IdempotencyCache ℕ
empty = record { ttl_ms = 100; max_entries = 2; values = [] }

empty-IsValid : IsValid empty
empty-IsValid = record { some_room = omega arith; bounded = omega arith; distinct = tt }

abbrev one : IdempotencyCache ℕ
one = record {
  ttl_ms = 100;
  max_entries = 2;
  values = ("a", record { value = 7; expires_at = 110 }) ∷ [];
}

store-one : store "a" 7 10 empty ≡ one
unfolding store get set evict prune_expired retain
store-one = refl

-- The oldest entry makes room for the third.
store_three :
    (store "c" 9 12 (store "b" 8 11 one)).values
    ≡ ("b", record { value = 8; expires_at = 111 })
      ∷ ("c", record { value = 9; expires_at = 112 })
      ∷ []
unfolding store get set evict prune_expired retain delete
store_three = refl

values-store_example :
    (store "a" 7 10 empty).values
    ≡ drop (suc (length (survivors "a" 10 empty)) - 2) (survivors "a" 10 empty)
      ++ ("a", record { value = 7; expires_at = 110 }) ∷ []
values-store_example = values-store "a" 7 10 empty empty-IsValid

found : (lookup "a" 50 one).0 ≡ some 7
unfolding lookup get
found = refl

b_not_a : ◌≢◌ {A = String} "b" "a"
b_not_a = ground (arith, eq_iff "b" "a")

replay_example :
    (lookup "a" 90 (apply_all (looks "a" 20 ∷ stores "b" 8 30 ∷ []) (store "a" 7 10 empty))).0
    ≡ some 7
replay_example =
    replay "a" 7 10 90 (looks "a" 20 ∷ stores "b" 8 30 ∷ []) empty empty-IsValid
      (omega arith, ((b_not_a, omega arith), tt)) (omega arith) (omega arith)
