-- ===== src/Base/Map.antt =====
-- The JavaScript `Map` with string keys, as the program uses it: an association list in insertion
-- order. `set` keeps the place of a key that is there and appends one that is not.
use Prim.Native.Nat.{suc, ◌≤◌}
use Prim.Native.String.{String}
use mathlib.Core.Path.{◌≡◌, refl}
use mathlib.Core.Bool.{Bool, true, false}
use mathlib.Core.Option.{Option, none, some}
use mathlib.Core.List.{List, [], ◌∷◌, ◌++◌}
use native.Mathlib.Omega.{arith}
use text.Mathlib.Text.{◌==◌}
use text.Mathlib.TextEquality.{eq_iff}
use mathlib.Core.Logic.{inl, inr}
use emacs_llvm.Base.Tests.{if◌then◌else◌, Bool-cases}
use emacs_llvm.Base.Lists.{length}

abbrev pub JsMap {ℓ} : Type ℓ → Type ℓ
JsMap V = List (String × V)

module _ {ℓ} {V : Type ℓ} where
  unfoldable pub get : String → JsMap V → Option V
  get k [] = none
  get k ((j, v) ∷ m) = if j == k then some v else get k m

  unfoldable pub set : String → V → JsMap V → JsMap V
  set k v [] = (k, v) ∷ []
  set k v ((j, w) ∷ m) = if j == k then (k, v) ∷ m else (j, w) ∷ set k v m

  unfoldable pub delete : String → JsMap V → JsMap V
  delete k [] = []
  delete k ((j, v) ∷ m) = if j == k then delete k m else (j, v) ∷ delete k m

  -- Deleting, during an iteration, the entries that fail a test.
  unfoldable pub retain : (V → Bool) → JsMap V → JsMap V
  retain p [] = []
  retain p ((j, v) ∷ m) = if p v then (j, v) ∷ retain p m else retain p m

  abbrev pub has : String → JsMap V → Bool
  has k m = elim (get k m) [ none ↦ false | some v ↦ true ]

  -- No key stands twice.
  abbrev pub Distinct : JsMap V → Type ℓ
  Distinct [] = Unit
  Distinct ((k, v) ∷ m) = (get k m ≡ none) × Distinct m

  pub get-set :
      (k j : String) (v : V) (m : JsMap V)
      → get j (set k v m) ≡ (if k == j then some v else get j m)
  unfolding get set
  get-set k j v [] = refl
  get-set k j v ((i, w) ∷ m) = ground (arith, eq_iff k j, eq_iff i k, eq_iff i j, get-set k j v m)

  pub get-delete :
      (k j : String) (m : JsMap V) → get j (delete k m) ≡ (if k == j then none else get j m)
  unfolding get delete
  get-delete k j [] = ground arith
  get-delete k j ((i, w) ∷ m) = ground (arith, eq_iff k j, eq_iff i k, eq_iff i j, get-delete k j m)

  -- What `retain` leaves under a key.
  abbrev pub kept : (V → Bool) → Option V → Option V
  kept p none = none
  kept p (some v) = if p v then some v else none

  pub get-retain-none :
      (p : V → Bool) (k : String) (m : JsMap V) → get k m ≡ none → get k (retain p m) ≡ none
  unfolding get retain
  get-retain-none p k [] h = refl
  get-retain-none p k ((j, v) ∷ m) h = ground (arith, get-retain-none p k m)

  pub get-retain :
      (p : V → Bool) (k : String) (m : JsMap V) → Distinct m → get k (retain p m) ≡ kept p (get k m)
  unfolding get retain
  get-retain p k [] h = refl
  get-retain p k ((j, v) ∷ m) (h, d) =
      ground (arith, eq_iff j k, get-retain p k m d, get-retain-none p j m h)

  pub set-Distinct : (k : String) (v : V) (m : JsMap V) → Distinct m → Distinct (set k v m)
  unfolding get set
  set-Distinct k v [] d = (refl, tt)
  set-Distinct k v ((j, w) ∷ m) (h, d) =
      ground (arith, eq_iff j k, eq_iff k j, get-set k j v m, set-Distinct k v m d)

  pub delete-Distinct : (k : String) (m : JsMap V) → Distinct m → Distinct (delete k m)
  unfolding get delete
  delete-Distinct k [] d = tt
  delete-Distinct k ((j, w) ∷ m) (h, d) =
      ground (arith, eq_iff j k, get-delete k j m, delete-Distinct k m d)

  pub retain-Distinct : (p : V → Bool) (m : JsMap V) → Distinct m → Distinct (retain p m)
  unfolding retain
  retain-Distinct p [] d = tt
  retain-Distinct p ((j, w) ∷ m) (h, d) =
      ground (arith, get-retain-none p j m h, retain-Distinct p m d)

  pub length-retain-le : (p : V → Bool) (m : JsMap V) → length (retain p m) ≤ length m
  unfolding retain
  length-retain-le p [] = omega arith
  length-retain-le p ((j, w) ∷ m) = ground (arith, length-retain-le p m)

  pub length-delete-le : (k : String) (m : JsMap V) → length (delete k m) ≤ length m
  unfolding delete
  length-delete-le k [] = omega arith
  length-delete-le k ((j, w) ∷ m) = ground (arith, length-delete-le k m)

  pub length-set-le : (k : String) (v : V) (m : JsMap V) → length (set k v m) ≤ suc (length m)
  unfolding set
  length-set-le k v [] = omega arith
  length-set-le k v ((j, w) ∷ m) = ground (arith, length-set-le k v m)

  -- A key that is not there goes to the end.
  pub set-of_get-none :
      (k : String) (v : V) (m : JsMap V) → get k m ≡ none → set k v m ≡ m ++ (k, v) ∷ []
  unfolding get set
  set-of_get-none k v [] h = refl
  set-of_get-none k v ((j, w) ∷ m) h = ground (arith, set-of_get-none k v m)

  pub delete_of_get-none : (k : String) (m : JsMap V) → get k m ≡ none → delete k m ≡ m
  unfolding get delete
  delete_of_get-none k [] h = refl
  delete_of_get-none k ((j, w) ∷ m) h = ground (arith, delete_of_get-none k m)

  -- What holds of every key.
  abbrev pub Keys : (String → Type 0) → JsMap V → Type 0
  Keys P [] = Unit
  Keys P ((k, v) ∷ m) = P k × Keys P m

  pub Keys-retain :
      (P : String → Type 0) (p : V → Bool) (m : JsMap V) → Keys P m → Keys P (retain p m)
  unfolding retain
  Keys-retain P p [] h = h
  Keys-retain P p ((k, v) ∷ m) (h, hs) = elim (Bool-cases (p v)) [
    | inl yes' ↦ rw yes' (h, Keys-retain P p m hs)
    | inr no' ↦ rw no' (Keys-retain P p m hs)
  ]

  pub Keys-delete :
      (P : String → Type 0) (k : String) (m : JsMap V) → Keys P m → Keys P (delete k m)
  unfolding delete
  Keys-delete P k [] h = h
  Keys-delete P k ((j, v) ∷ m) (h, hs) = elim (Bool-cases (j == k)) [
    | inl yes' ↦ rw yes' (Keys-delete P k m hs)
    | inr no' ↦ rw no' (h, Keys-delete P k m hs)
  ]

  pub Keys-set :
      (P : String → Type 0) (k : String) (v : V) (m : JsMap V) → P k → Keys P m → Keys P (set k v m)
  unfolding set
  Keys-set P k v [] p h = (p, tt)
  Keys-set P k v ((j, w) ∷ m) p (h, hs) = elim (Bool-cases (j == k)) [
    | inl yes' ↦ rw yes' (p, hs)
    | inr no' ↦ rw no' (h, Keys-set P k v m p hs)
  ]
