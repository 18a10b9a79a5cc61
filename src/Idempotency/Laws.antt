-- ===== src/Idempotency/Laws.antt =====
-- What each operation of the idempotency cache does, and its invariant.
use emacs_llvm.Base.{
  ℕ, suc, ◌+◌, ◌-◌, ◌≤◌, ◌<◌, ◌≡◌, refl, String, false, none, some, [], ◌∷◌, ◌++◌, ltb, length,
  drop, length-drop, length-append, arith, Option-cases, inl, inr, eq_refl, if◌then◌else◌,
}
use emacs_llvm.Base.Map.{
  JsMap, get, delete, retain, Distinct, get-set, get-delete, delete-Distinct, retain-Distinct,
  set-Distinct, set-of_get-none, length-delete-le, length-retain-le, delete_of_get-none,
}
use emacs_llvm.Base.Evict.{evict, evict-drop, NeverStops, drop-Distinct, get-drop-none}
use emacs_llvm.Idempotency.{Entry, IdempotencyCache, is_live, prune_expired, lookup, others, store}

module _ {ℓ} {T : Type ℓ} where
  pub record IsValid (c : IdempotencyCache T) : Type ℓ where
    pub some_room : 0 < c.max_entries
    pub bounded : length c.values ≤ c.max_entries
    pub distinct : Distinct c.values

  others_lem :
      (key : String) (now : ℕ) (c : IdempotencyCache T)
      → others key now c ≡ delete key (retain (is_live now) c.values)
  unfolding prune_expired
  others_lem key now c = ground (arith, delete_of_get-none key (retain (is_live now) c.values))

  NeverStops-never : (m : JsMap (Entry T)) → NeverStops (λ first. false) m
  NeverStops-never [] = tt
  NeverStops-never ((k, v) ∷ m) = (refl, NeverStops-never m)

  -- The entries that are live and not of this key.
  abbrev pub survivors : String → ℕ → IdempotencyCache T → JsMap (Entry T)
  survivors key now c = delete key (retain (is_live now) c.values)

  survivors-Distinct :
      (key : String) (now : ℕ) (c : IdempotencyCache T)
      → Distinct c.values
      → Distinct (survivors key now c)
  survivors-Distinct key now c d =
      delete-Distinct key (retain (is_live now) c.values) (retain-Distinct (is_live now) c.values d)

  survivors-fresh :
      (key : String) (now : ℕ) (c : IdempotencyCache T) → get key (survivors key now c) ≡ none
  survivors-fresh key now c =
      ground (arith, get-delete key key (retain (is_live now) c.values), eq_refl key)

  -- `set`, whole, on a valid cache: the expired entries and the key's old one go, then as many of the oldest as are
  -- needed for one more, and the new entry stands last.
  pub values-store :
      (key : String) (value : T) (now : ℕ) (c : IdempotencyCache T)
      → IsValid c
      → (store key value now c).values
        ≡ drop (suc (length (survivors key now c)) - c.max_entries) (survivors key now c)
          ++ (key, record { value = value; expires_at = now + c.ttl_ms }) ∷ []
  unfolding store
  values-store key value now c v = rw (
    others_lem key now c,
    evict-drop (λ first. false) c.max_entries (suc (length (survivors key now c)))
        (survivors key now c) v.some_room (omega arith) (survivors-Distinct key now c v.distinct)
        (NeverStops-never (survivors key now c)),
    set-of_get-none key (record { value = value; expires_at = now + c.ttl_ms })
        (drop (suc (length (survivors key now c)) - c.max_entries) (survivors key now c))
        (get-drop-none key (suc (length (survivors key now c)) - c.max_entries)
          (survivors key now c) (survivors-fresh key now c)),
  )

  length-survivors-le :
      (key : String) (now : ℕ) (c : IdempotencyCache T)
      → length (survivors key now c) ≤ length c.values
  length-survivors-le key now c = omega (
    arith,
    length-delete-le key (retain (is_live now) c.values),
    length-retain-le (is_live now) c.values,
  )

  length-values-store :
      (key : String) (value : T) (now : ℕ) (c : IdempotencyCache T)
      → IsValid c
      → length (store key value now c).values ≤ c.max_entries
  length-values-store key value now c v =
      let rest = survivors key now c in
      let surplus = suc (length rest) - c.max_entries in
      rw (values-store key value now c v) (
        omega (
          arith,
          length-append (drop surplus rest)
              ((key, record { value = value; expires_at = now + c.ttl_ms }) ∷ []),
          length-drop surplus rest,
          v.some_room,
        ))

  -- Storing in a valid cache keeps the keys distinct and the number of entries within the limit.
  pub store-IsValid :
      (key : String) (value : T) (now : ℕ) (c : IdempotencyCache T)
      → IsValid c
      → IsValid (store key value now c)
  unfolding store
  store-IsValid key value now c v = record {
    some_room = v.some_room;
    bounded = length-values-store key value now c v;
    distinct =
        rw
          (
            others_lem key now c,
            evict-drop (λ first. false) c.max_entries (suc (length (survivors key now c)))
                (survivors key now c) v.some_room (omega arith)
                (survivors-Distinct key now c v.distinct) (NeverStops-never (survivors key now c)),
          )
          (set-Distinct key _ _ (
            drop-Distinct (suc (length (survivors key now c)) - c.max_entries) (survivors key now c)
              (survivors-Distinct key now c v.distinct)));
  }

  lookup-IsValid :
      (key : String) (now : ℕ) (c : IdempotencyCache T) → IsValid c → IsValid (lookup key now c).1
  unfolding lookup
  lookup-IsValid key now c v =
      ground (arith, length-delete-le key c.values, delete-Distinct key c.values v.distinct)

  -- What a lookup returns stands in the cache under its key and has not expired.
  lookup_live :
      (key : String) (now : ℕ) (c : IdempotencyCache T) (value : T)
      → (lookup key now c).0 ≡ some value
      → (hit : Entry T) × (get key c.values ≡ some hit)
        × (now < hit.expires_at)
        × (hit.value ≡ value)
  unfolding lookup
  lookup_live key now c value e = elim (Option-cases (get key c.values)) [
    | inl missed ↦ cc (rw (missed, lookup) at e)
    | inr (hit, found) ↦ (hit, found, ground arith, ground arith)
  ]

  -- A value that was stored is found until its time has run out, and not from then on.
  pub lookup-store :
      (key : String) (value : T) (now later : ℕ) (c : IdempotencyCache T)
      → (lookup key later (store key value now c)).0
        ≡ (if ltb later (now + c.ttl_ms) then some value else none)
  unfolding lookup store
  lookup-store key value now later c = ground (
    arith,
    eq_refl key,
    get-set key key (record { value = value; expires_at = now + c.ttl_ms })
        (evict (λ first. false) c.max_entries (suc (length (others key now c))) (others key now c)),
  )
