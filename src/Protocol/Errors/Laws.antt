-- ===== src/Protocol/Errors/Laws.antt =====
-- Inversion of fallible code, and what the tables of error codes guarantee.
use emacs_llvm.Base.{◌≤◌, ◌<◌, ◌≡◌, refl, Bool, true, false, String, arith, Option}
use emacs_llvm.Base.Json.{Fields}
use emacs_llvm.Protocol.Errors.{ErrorCode, defaults, Result, ok, err, ◌>>=◌, ◌>>◌, ensure}

-- A chain that succeeds has succeeded in its first step.
pub >>=-eq-ok {ℓ κ} :
    {T : Type ℓ} {U : Type κ} (first : Result T) (rest : T → Result U) {out : U}
    → (first >>= rest) ≡ ok out
    → (value : T) × (first ≡ ok value) × (rest value ≡ ok out)
>>=-eq-ok (err thrown) rest h = cc
>>=-eq-ok (ok value) rest h = (value, refl, h)

pub ensure-eq-ok {ℓ} :
    {B : Type ℓ} (test : Bool) (code : ErrorCode) (message : String) (details : Option Fields)
    (k : Result B) {b : B}
    → (ensure test code message details >> k) ≡ ok b
    → (test ≡ true) × (k ≡ ok b)
ensure-eq-ok true code message details k h = (refl, h)
ensure-eq-ok false code message details k h = cc

-- Every error has the category of an HTTP failure.
category_bounds : (c : ErrorCode) → (400 ≤ (defaults c).category) × ((defaults c).category < 600)
unfolding defaults
category_bounds c = ground arith
