-- ===== src/Base/Evict.antt =====
-- A `Map` that makes room by dropping its oldest entries: the loop
-- `while (map.size >= max) { const first = map.keys().next().value; … map.delete(first); }`
-- that the idempotency cache and the verification tickets share.
use Prim.Native.Nat.{ℕ, zero, suc, ◌-◌, ◌<◌}
use Prim.Native.String.{String}
use mathlib.Core.Path.{◌≡◌, refl}
use mathlib.Core.Bool.{Bool, false}
use mathlib.Core.Option.{none, some}
use mathlib.Core.Logic.{◌≢◌, inl, inr}
use mathlib.Core.List.{[], ◌∷◌, ◌++◌}
use native.Mathlib.Omega.{arith}
use text.Mathlib.TextEquality.{eq_iff}
use text.Mathlib.TextPositions.{eq_refl}
use emacs_llvm.Base.Tests.{if◌then◌else◌, leb, leb→le, lt_of_leb-false, Bool-cases}
use emacs_llvm.Base.Lists.{length, drop}
use emacs_llvm.Base.Map.{JsMap, Keys, get, delete, retain, Distinct, delete_of_get-none}

module _ {ℓ} {V : Type ℓ} where
  -- `stop` is the test on the oldest key that leaves the loop early.
  unfoldable pub evict : (String → Bool) → ℕ → ℕ → JsMap V → JsMap V
  evict stop max zero m = m
  evict stop max (suc fuel) [] = []
  evict stop max (suc fuel) ((k, v) ∷ m) =
      let rest = evict stop max fuel (delete k ((k, v) ∷ m)) in
      if leb max (length ((k, v) ∷ m)) then (if stop k then (k, v) ∷ m else rest) else (k, v) ∷ m

  -- No key is one at which the loop stops early.
  abbrev pub NeverStops : (String → Bool) → JsMap V → Type 0
  NeverStops stop m = Keys (λ k. stop k ≡ false) m

  delete-head : (k : String) (v : V) (m : JsMap V) → get k m ≡ none → delete k ((k, v) ∷ m) ≡ m
  unfolding delete
  delete-head k v m h = rw (eq_refl k) (delete_of_get-none k m h)

  -- The loop drops exactly the entries that are too many, the oldest first.
  pub evict-drop :
      (stop : String → Bool) (max fuel : ℕ) (m : JsMap V)
      → 0 < max
      → length m < fuel
      → Distinct m
      → NeverStops stop m
      → evict stop max fuel m ≡ drop (suc (length m) - max) m
  unfolding evict
  evict-drop stop max zero m p h d n = absurd (omega arith)
  evict-drop stop max (suc fuel) [] p h d n =
      let none_over : suc zero - max ≡ zero = omega arith in rw none_over
  evict-drop stop max (suc fuel) ((k, v) ∷ m) p h (fresh, d) (go, n) =
      elim (Bool-cases (leb max (suc (length m)))) [
        | inl full ↦
            let more : suc (suc (length m)) - max ≡ suc (suc (length m) - max) =
              omega (arith, leb→le max (suc (length m)) full) in
            rw (full, go, delete-head k v m fresh, more)
              (evict-drop stop max fuel m p (omega arith) d n)
        | inr room ↦
            let none_over : suc (suc (length m)) - max ≡ zero =
              omega (arith, lt_of_leb-false max (suc (length m)) room) in
            rw (room, none_over)
      ]

  pub drop-Distinct : (n : ℕ) (m : JsMap V) → Distinct m → Distinct (drop n m)
  drop-Distinct zero m d = d
  drop-Distinct (suc n) [] d = d
  drop-Distinct (suc n) ((k, v) ∷ m) (h, d) = drop-Distinct n m d

  pub get-drop-none : (k : String) (n : ℕ) (m : JsMap V) → get k m ≡ none → get k (drop n m) ≡ none
  unfolding get
  get-drop-none k zero m h = h
  get-drop-none k (suc n) [] h = refl
  get-drop-none k (suc n) ((j, v) ∷ m) h = get-drop-none k n m (ground arith)

  pub retain-append :
      (p : V → Bool) (xs ys : JsMap V) → retain p (xs ++ ys) ≡ retain p xs ++ retain p ys
  unfolding retain
  retain-append p [] ys = refl
  retain-append p ((k, v) ∷ xs) ys = ground (arith, retain-append p xs ys)

  pub delete-append :
      (k : String) (xs ys : JsMap V) → delete k (xs ++ ys) ≡ delete k xs ++ delete k ys
  unfolding delete
  delete-append k [] ys = refl
  delete-append k ((j, v) ∷ xs) ys = ground (arith, delete-append k xs ys)

  pub get-append_none :
      (k : String) (xs ys : JsMap V)
      → get k (xs ++ ys) ≡ none
      → (get k xs ≡ none) × (get k ys ≡ none)
  unfolding get
  get-append_none k [] ys h = (refl, h)
  get-append_none k ((j, v) ∷ xs) ys h = ground (arith, get-append_none k xs ys)

  -- Under distinct keys an entry in the middle is what a lookup of its key finds.
  pub get_middle :
      (k : String) (v : V) (xs ys : JsMap V)
      → Distinct (xs ++ (k, v) ∷ ys)
      → get k (xs ++ (k, v) ∷ ys) ≡ some v
  unfolding get
  get_middle k v [] ys d = rw (eq_refl k)
  get_middle k v ((j, w) ∷ xs) ys (h, d) =
      ground (arith, eq_iff j k, eq_refl k, get_middle k v xs ys d, h)

  pub Keys-drop : (P : String → Type 0) (n : ℕ) (m : JsMap V) → Keys P m → Keys P (drop n m)
  Keys-drop P zero m h = h
  Keys-drop P (suc n) [] h = h
  Keys-drop P (suc n) ((k, v) ∷ m) (h, hs) = Keys-drop P n m hs

  -- A key is found after the oldest entries are dropped if it was, and is not one of those.
  pub get-drop :
      (k : String) (n : ℕ) (m : JsMap V)
      → Distinct m
      → get k (drop n m) ≢ none
      → get k (drop n m) ≡ get k m
  unfolding get
  get-drop k zero m d h = refl
  get-drop k (suc n) [] d h = refl
  get-drop k (suc n) ((j, v) ∷ m) (fresh, d) h =
      ground (arith, eq_iff j k, get-drop k n m d, get-drop-none j n m fresh)
