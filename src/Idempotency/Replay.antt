-- ===== src/Idempotency/Replay.antt =====
-- The promise of the cache to the tool router: a repeated request gets the first answer, as long as
-- its time has not run out and fewer other requests than the cache has room for came between.
use emacs_llvm.Base.{
  ℕ, suc, ◌+◌, ◌-◌, ◌≤◌, ◌<◌, ◌≡◌, ◌≢◌, refl, ap, sym, ◌∙◌, String, Option, none, some, [], List,
  ◌∷◌, ◌++◌, append_assoc, leb, length, drop, drop-append_le, length-append, arith, eq_iff, All,
  subst, Option-cases, Bool-cases, leb→le, inl, inr,
}
use emacs_llvm.Base.Map.{
  JsMap, get, delete, retain, Distinct, length-delete-le, length-retain-le, delete-Distinct,
}
use emacs_llvm.Base.Evict.{retain-append, delete-append, get_middle}
use emacs_llvm.Idempotency.{Entry, IdempotencyCache, is_live, lookup, store}
use emacs_llvm.Idempotency.Laws.{IsValid, survivors, values-store, store-IsValid}

-- What the router does with the cache between two requests.
pub data Use {ℓ} (T : Type ℓ) : Type ℓ where
  looks : String → ℕ → Use T
  stores : String → T → ℕ → Use T

module _ {ℓ} {T : Type ℓ} where
  pub apply : Use T → IdempotencyCache T → IdempotencyCache T
  apply (looks key now) c = (lookup key now c).1
  apply (stores key value now) c = store key value now c

  pub apply_all : List (Use T) → IdempotencyCache T → IdempotencyCache T
  apply_all [] c = c
  apply_all (u ∷ us) c = apply_all us (apply u c)

  abbrev count_stores : List (Use T) → ℕ
  count_stores [] = 0
  count_stores (looks key now ∷ us) = count_stores us
  count_stores (stores key value now ∷ us) = suc (count_stores us)

  -- When the entry under a key ends, if there is one.
  deadline : Option (Entry T) → ℕ
  deadline none = 0
  deadline (some e) = e.expires_at

  -- A use before the deadline that stores nothing under the key.
  abbrev Before : String → ℕ → Use T → Type 0
  Before key deadline (looks j now) = now < deadline
  Before key deadline (stores j value now) = (j ≢ key) × (now < deadline)

  -- The entry stands in the cache with at most `n` younger ones behind it.
  record Holds (key : String) (e : Entry T) (n : ℕ) (c : IdempotencyCache T) : Type ℓ where
    older : JsMap (Entry T)
    younger : JsMap (Entry T)
    at : c.values ≡ older ++ (key, e) ∷ younger
    few : length younger ≤ n
    valid : IsValid c

  -- One entry more or less in front of it does not move it.
  survivors_middle :
      (key j : String) (e : Entry T) (now : ℕ) (xs ys : JsMap (Entry T))
      → j ≢ key
      → now < e.expires_at
      → delete j (retain (is_live now) (xs ++ (key, e) ∷ ys))
        ≡ delete j (retain (is_live now) xs) ++ (key, e) ∷ delete j (retain (is_live now) ys)
  unfolding retain delete
  survivors_middle key j e now xs ys other live =
      rw
        (
          retain-append (is_live now) xs ((key, e) ∷ ys),
          delete-append j (retain (is_live now) xs) (retain (is_live now) ((key, e) ∷ ys)),
        )
        (ap (◌++◌ (delete j (retain (is_live now) xs))) (ground (arith, eq_iff key j)))

  store-Holds :
      (key j : String) (e : Entry T) (n now : ℕ) (value : T) (c : IdempotencyCache T)
      → j ≢ key
      → now < e.expires_at
      → suc (suc n) ≤ c.max_entries
      → Holds key e n c
      → Holds key e (suc n) (store j value now c)
  store-Holds key j e n now value c other live room h =
      let entry : Entry T = record { value = value; expires_at = now + c.ttl_ms } in
      let before = delete j (retain (is_live now) h.older) in
      let after = delete j (retain (is_live now) h.younger) in
      let whole : survivors j now c ≡ before ++ (key, e) ∷ after =
        rw h.at (survivors_middle key j e now h.older h.younger other live) in
      let surplus = suc (length (survivors j now c)) - c.max_entries in
      let fits : length after ≤ n = omega (
        arith,
        length-delete-le j (retain (is_live now) h.younger),
        length-retain-le (is_live now) h.younger,
        h.few,
      ) in
      let spare : surplus ≤ length before =
        omega (arith, ap length whole, length-append before ((key, e) ∷ after)) in
      record {
        older = drop surplus before;
        younger = after ++ (j, entry) ∷ [];
        at =
            values-store j value now c h.valid
            ∙ ap (λ m. drop surplus m ++ (j, entry) ∷ []) whole
            ∙ ap (λ m. m ++ (j, entry) ∷ [])
                (drop-append_le surplus before ((key, e) ∷ after) spare)
            ∙ append_assoc (drop surplus before) ((key, e) ∷ after) ((j, entry) ∷ []);
        few = omega (arith, length-append after ((j, entry) ∷ []));
        valid = store-IsValid j value now c h.valid;
      }

  delete_middle :
      (key j : String) (e : Entry T) (xs ys : JsMap (Entry T))
      → j ≢ key
      → delete j (xs ++ (key, e) ∷ ys) ≡ delete j xs ++ (key, e) ∷ delete j ys
  unfolding delete
  delete_middle key j e xs ys other =
      delete-append j xs ((key, e) ∷ ys) ∙ ap (◌++◌ (delete j xs)) (ground (arith, eq_iff key j))

  -- An unexpired entry stays where it is under every lookup.
  lookup-Holds :
      (key j : String) (e : Entry T) (n now : ℕ) (c : IdempotencyCache T)
      → now < e.expires_at
      → Holds key e n c
      → Holds key e n (lookup j now c).1
  unfolding lookup deadline
  lookup-Holds key j e n now c live h = elim (Option-cases (get j c.values)) [
    | inl missed ↦ rw (missed, lookup) h
    | inr (hit, found) ↦ elim (Bool-cases (leb hit.expires_at now)) [
      | inr kept ↦ rw (found, lookup, kept) h
      | inl expired ↦
          let same : get key c.values ≡ some e =
            rw h.at (
              get_middle key e h.older h.younger (subst (λ m. Distinct m) h.at h.valid.distinct)) in
          let other : j ≢ key = λ p. absurd (
            omega (
              arith,
              leb→le hit.expires_at now expired,
              ap (λ (o : Option (Entry T)). deadline o)
                  (sym found ∙ ap (λ k. get k c.values) p ∙ same),
            )) in
          rw (found, lookup, expired)
            (record {
              older = delete j h.older;
              younger = delete j h.younger;
              at = ap (delete j) h.at ∙ delete_middle key j e h.older h.younger other;
              few = omega (arith, length-delete-le j h.younger, h.few);
              valid = record {
                some_room = h.valid.some_room;
                bounded = omega (arith, h.valid.bounded, length-delete-le j c.values);
                distinct = delete-Distinct j c.values h.valid.distinct;
              };
            })
    ]
  ]

  apply_settings :
      (u : Use T) (c : IdempotencyCache T)
      → ((apply u c).max_entries ≡ c.max_entries) × ((apply u c).ttl_ms ≡ c.ttl_ms)
  unfolding apply lookup store
  apply_settings (looks key now) c = ground arith
  apply_settings (stores key value now) c = (refl, refl)

  apply_all-Holds :
      (key : String) (e : Entry T) (n : ℕ) (us : List (Use T)) (c : IdempotencyCache T)
      → All (Before key e.expires_at) us
      → n + count_stores us < c.max_entries
      → Holds key e n c
      → Holds key e (n + count_stores us) (apply_all us c)
  unfolding apply_all apply
  apply_all-Holds key e n [] c b room h = let same : n + 0 ≡ n = omega arith in rw same h
  apply_all-Holds key e n (looks j now ∷ us) c (b, bs) room h =
      apply_all-Holds key e n us (lookup j now c).1 bs
        (omega (arith, (apply_settings (looks j now) c).0)) (lookup-Holds key j e n now c b h)
  apply_all-Holds key e n (stores j value now ∷ us) c (b, bs) room h =
      let shift : n + suc (count_stores us) ≡ suc n + count_stores us = omega arith in
      rw shift (
        apply_all-Holds key e (suc n) us (store j value now c) bs
          (omega (arith, (apply_settings (stores j value now) c).0))
          (store-Holds key j e n now value c b.0 b.1 (omega arith) h))

  store_first :
      (key : String) (value : T) (now : ℕ) (c : IdempotencyCache T)
      → IsValid c
      → Holds key (record { value = value; expires_at = now + c.ttl_ms }) 0 (store key value now c)
  store_first key value now c v = record {
    older = _;
    younger = [];
    at = values-store key value now c v;
    few = omega arith;
    valid = store-IsValid key value now c v;
  }

  -- In a valid cache a lookup before the deadline returns the stored value, whatever lookups, and whatever stores
  -- under other keys, came between, all before the deadline, as long as the stores were fewer
  -- than the entries that the cache has room for.
  pub replay :
      (key : String) (value : T) (now later : ℕ) (us : List (Use T)) (c : IdempotencyCache T)
      → IsValid c
      → All (Before key (now + c.ttl_ms)) us
      → count_stores us < c.max_entries
      → later < now + c.ttl_ms
      → (lookup key later (apply_all us (store key value now c))).0 ≡ some value
  unfolding lookup store
  replay key value now later us c v b room early =
      let entry : Entry T = record { value = value; expires_at = now + c.ttl_ms } in
      let h =
        apply_all-Holds key entry 0 us (store key value now c) b
          (omega (arith, (apply_settings (stores key value now) c).0))
          (store_first key value now c v) in
      let found : get key (apply_all us (store key value now c)).values ≡ some entry =
        rw h.at (
          get_middle key entry h.older h.younger (subst (λ m. Distinct m) h.at h.valid.distinct)) in
      rw (found, lookup) (ground arith)
