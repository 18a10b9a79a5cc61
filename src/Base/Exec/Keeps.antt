-- ===== src/Base/Exec/Keeps.antt =====
-- Invariants of methods. `Turns I P Q m`: `m` keeps `I` whether it returns or throws, and where it
-- returns, `Q` holds after it if `P` did before it.
use emacs_llvm.Base.Tests.{if◌then◌else◌}
use mathlib.Core.Path.{◌≡◌, refl}
use mathlib.Core.Bool.{Bool, true, false}
use mathlib.Core.Option.{Option, none, some}
use emacs_llvm.Protocol.Errors.{Result, ok, err, OperatorError}
use emacs_llvm.Base.Exec.{Exec, pure, lift, reads, writes, ◌>>=◌, attempt, outcome, after, handled}

-- What holds of an outcome and the state beside it.
abbrev pub Holds : {S : Type 0} {A : Type 0} → (S → Type 0) → (S → Type 0) → Result A × S → Type 0
Holds I Q (ok a, s) = I s × Q s
Holds I Q (err e, s) = I s

pub record Turns {S : Type 0} {A : Type 0} (I P Q : S → Type 0) (m : Exec S A) : Type 0 where
  pub run : (s : S) → I s → P s → Holds I Q (m s)

-- Nothing is asked.
abbrev pub Anything : {S : Type 0} → S → Type 0
Anything s = Unit

abbrev pub Keeps : {S : Type 0} {A : Type 0} → (S → Type 0) → (S → Type 0) → Exec S A → Type 0
Keeps I P m = Turns I P P m

-- `m` may end with `P` broken.
abbrev pub Ends : {S : Type 0} {A : Type 0} → (S → Type 0) → (S → Type 0) → Exec S A → Type 0
Ends I P m = Turns I P Anything m

module _ {S : Type 0} (I P Q : S → Type 0) where
  lift_holds : {A : Type 0} (r : Result A) (s : S) → I s → P s → Holds I P (r, s)
  lift_holds (ok a) s i p = (i, p)
  lift_holds (err e) s i p = i

  after_holds :
      {A : Type 0} {B : Type 0} (r : Result A × S) (f : A → Exec S B)
      → Holds I P r
      → ((a : A) → Turns I P Q (f a))
      → Holds I Q (after r f)
  after_holds (ok a, s) f (i, p) k = (k a).run s i p
  after_holds (err e, s) f i k = i

  handled_holds :
      {A : Type 0} (r : Result A × S) (h : OperatorError → Exec S A)
      → Holds I P r
      → ((e : OperatorError) → Ends I Anything (h e))
      → Holds I Anything (handled r h)
  handled_holds (ok a, s) h (i, p) k = (i, tt)
  handled_holds (err e, s) h i k = (k e).run s i tt

  forgotten : {A : Type 0} (r : Result A × S) → Holds I P r → Holds I Anything r
  forgotten (ok a, s) (i, p) = (i, tt)
  forgotten (err e, s) i = i

  replaced : {A : Type 0} (r : Result A × S) → ((s : S) → Q s) → Holds I Anything r → Holds I Q r
  replaced (ok a, s) always (i, p) = (i, always s)
  replaced (err e, s) always i = i

  pub invariant_of : {A : Type 0} (r : Result A × S) → Holds I P r → I r.1
  invariant_of (ok a, s) (i, p) = i
  invariant_of (err e, s) i = i

module _ {S : Type 0} {I : S → Type 0} {P : S → Type 0} where
  pub Keeps-pure : {A : Type 0} (a : A) → Keeps I P (pure a)
  unfolding pure
  Keeps-pure a = record { run = λ s i p. (i, p) }

  pub Keeps-lift : {A : Type 0} (r : Result A) → Keeps I P (lift r)
  unfolding lift
  Keeps-lift r = record { run = lift_holds I P P r }

  pub Keeps-reads : {A : Type 0} (f : S → A) → Keeps I P (reads f)
  unfolding reads
  Keeps-reads f = record { run = λ s i p. (i, p) }

  pub Keeps-writes :
      (f : S → S) → ((s : S) → I s → I (f s)) → ((s : S) → P s → P (f s)) → Keeps I P (writes f)
  unfolding writes
  Keeps-writes f i p = record { run = λ s x y. (i s x, p s y) }

  pub Ends-forget : {A : Type 0} (m : Exec S A) → Keeps I P m → Ends I P m
  Ends-forget m k = record { run = λ s i p. forgotten I P P (m s) (k.run s i p) }

  -- A block that needs less.
  pub Turns-before :
      {A : Type 0} {P' Q : S → Type 0} (m : Exec S A)
      → ((s : S) → P' s → P s)
      → Turns I P Q m
      → Turns I P' Q m
  Turns-before m weaker k = record { run = λ s i p. k.run s i (weaker s p) }

  pub Turns-always :
      {A : Type 0} {R : S → Type 0} (m : Exec S A) → ((s : S) → R s) → Ends I P m → Turns I P R m
  Turns-always {A} {R} m always k = record {
    run = λ s i p. replaced I P R (m s) always (k.run s i p);
  }

  -- After a block that may have thrown there is only what always holds.
  pub Turns-outcome :
      {A : Type 0} {R : S → Type 0} (m : Exec S A)
      → ((s : S) → R s)
      → Ends I P m
      → Turns I P R (outcome m)
  unfolding outcome
  Turns-outcome m always k = record {
    run = λ s i p. (invariant_of I Anything Anything (m s) (k.run s i p), always _);
  }

  pub Ends-attempt :
      {A : Type 0} (m : Exec S A) (h : OperatorError → Exec S A)
      → Ends I P m
      → ((e : OperatorError) → Ends I Anything (h e))
      → Ends I P (attempt m h)
  unfolding attempt
  Ends-attempt m h km kh = record {
    run = λ s i p. handled_holds I Anything Anything (m s) h (km.run s i p) kh;
  }

module _ {S : Type 0} {I : S → Type 0} {P : S → Type 0} {Q : S → Type 0} where
  pub Turns-if :
      {A : Type 0} (b : Bool) (m n : Exec S A)
      → Turns I P Q m
      → Turns I P Q n
      → Turns I P Q (if b then m else n)
  Turns-if true m n km kn = km
  Turns-if false m n km kn = kn

  pub Turns-elim :
      {A : Type 0} {B : Type 0} (o : Option B) (m : Exec S A) (f : B → Exec S A)
      → Turns I P Q m
      → ((b : B) → Turns I P Q (f b))
      → Turns I P Q (elim o [ none ↦ m | some b ↦ f b ])
  Turns-elim none m f km kf = km
  Turns-elim (some b) m f km kf = kf b

  pub Turns-bind :
      {A : Type 0} {B : Type 0} (m : Exec S A) (f : A → Exec S B)
      → Keeps I P m
      → ((a : A) → Turns I P Q (f a))
      → Turns I P Q (m >>= f)
  unfolding ◌>>=◌
  Turns-bind m f km kf = record { run = λ s i p. after_holds I P Q (m s) f (km.run s i p) kf }

  pub Turns-bind-if :
      {A : Type 0} {B : Type 0} (b : Bool) (m n : Exec S A) (f : A → Exec S B)
      → Turns I P Q (m >>= f)
      → Turns I P Q (n >>= f)
      → Turns I P Q ((if b then m else n) >>= f)
  Turns-bind-if true m n f km kn = km
  Turns-bind-if false m n f km kn = kn

  pub Turns-bind-pure :
      {A : Type 0} {B : Type 0} (a : A) (f : A → Exec S B)
      → Turns I P Q (f a)
      → Turns I P Q (pure a >>= f)
  unfolding ◌>>=◌ pure
  Turns-bind-pure a f k = record { run = λ s i p. k.run s i p }

  -- What comes after a block that has changed what holds.
  pub Turns-then :
      {A : Type 0} {B : Type 0} {R : S → Type 0} (m : Exec S A) (f : A → Exec S B)
      → Turns I P R m
      → ((a : A) → Turns I R Q (f a))
      → Turns I P Q (m >>= f)
  unfolding ◌>>=◌
  Turns-then {A} {B} {R} m f km kf = record {
    run = λ s i p. after_holds I R Q (m s) f (km.run s i p) kf;
  }

  -- The rest of the block may use that a test did not throw.
  pub Turns-bind-lift :
      {A : Type 0} {B : Type 0} (r : Result A) (f : A → Exec S B)
      → ((a : A) → r ≡ ok a → Turns I P Q (f a))
      → Turns I P Q (lift r >>= f)
  unfolding ◌>>=◌ lift
  Turns-bind-lift (ok a) f k = record { run = λ s i p. (k a refl).run s i p }
  Turns-bind-lift (err e) f k = record { run = λ s i p. i }

pub ruleset turns_rules =
    (Keeps-pure, Keeps-lift, Keeps-reads, Ends-forget, Turns-if, Turns-elim, Turns-bind)
