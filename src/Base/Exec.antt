-- ===== src/Base/Exec.antt =====
-- Methods that change objects and may throw: a state goes in, and comes out beside the outcome,
-- also beside an error, since nothing that was written before a throw is taken back.
pub mod Keeps
use emacs_llvm.Protocol.Errors.{Result, ok, err, OperatorError}

abbrev pub Exec : Type 0 → Type 0 → Type 0
Exec S A = S → Result A × S

module _ {S : Type 0} {A : Type 0} where
  unfoldable pub pure : A → Exec S A
  pure a s = (ok a, s)

  unfoldable pub lift : Result A → Exec S A
  lift r s = (r, s)

  unfoldable pub reads : (S → A) → Exec S A
  reads f s = (ok (f s), s)

unfoldable pub writes : {S : Type 0} → (S → S) → Exec S (Unit {0})
writes f s = (ok tt, f s)

module _ {S : Type 0} {A : Type 0} {B : Type 0} where
  abbrev pub after : Result A × S → (A → Exec S B) → Result B × S
  after (ok a, s) f = f a s
  after (err e, s) f = (err e, s)

  infixl 5 ◌>>=◌
  unfoldable pub ◌>>=◌ : Exec S A → (A → Exec S B) → Exec S B
  ◌>>=◌ m f s = after (m s) f

infixl 5 ◌>>◌
abbrev pub ◌>>◌ : {S : Type 0} {A : Type 0} {B : Type 0} → Exec S A → Exec S B → Exec S B
m >> n = m >>= λ u. n

abbrev pub handled :
    {S : Type 0} {A : Type 0} → Result A × S → (OperatorError → Exec S A) → Result A × S
handled (ok a, s) h = (ok a, s)
handled (err e, s) h = h e s

-- `try { m } catch (e) { h(e) }`
unfoldable pub attempt :
    {S : Type 0} {A : Type 0} → Exec S A → (OperatorError → Exec S A) → Exec S A
attempt m h s = handled (m s) h

-- Whether a block threw, for what runs in either case.
unfoldable pub outcome : {S : Type 0} {A : Type 0} → Exec S A → Exec S (Result A)
outcome m s = let (r, s') = m s in (ok r, s')
