-- ===== src/Base/Json.antt =====
-- The values of the language that cross the program's boundaries: `unknown` in its signatures.
use Prim.Native.Nat.{ℕ, zero, suc}
use Prim.Native.String.{String}
use mathlib.Core.Bool.{Bool, true, false}
use text.Mathlib.Text.{◌==◌}
use emacs_llvm.Base.Tests.{if◌then◌else◌}

-- `negsuc n` is -(n + 1).
pub data ℤ : Type 0 where
  pos : ℕ → ℤ
  negsuc : ℕ → ℤ

-- `fractional n r` is a finite number between n and n + 1; r is its rank among those that the
-- machine has there.
pub data Number : Type 0 where
  integer : ℤ → Number
  fractional : ℤ → ℕ → Number
  not_a_number infinity minus_infinity : Number

mutual
  pub data Json : Type 0 where
    undefined null : Json
    bool : Bool → Json
    num : Number → Json
    str : String → Json
    arr : Items → Json
    obj : Fields → Json

  pub data Items : Type 0 where
    nil : Items
    cons : Json → Items → Items

  pub data Fields : Type 0 where
    end : Fields
    field : String → Json → Fields → Fields

-- `object[key]`.
unfoldable pub at : String → Fields → Json
at k end = undefined
at k (field j v fs) = if j == k then v else at k fs

-- `Number.isFinite`.
abbrev pub is_finite : Number → Bool
is_finite (integer n) = true
is_finite (fractional n r) = true
is_finite _ = false

-- `Boolean(value)`, for the values that the program tests so.
unfoldable pub truthy : Json → Bool
truthy undefined = false
truthy null = false
truthy (bool b) = b
truthy (num (integer (pos n))) = elim n [ zero ↦ false | suc m ↦ true ]
truthy (num not_a_number) = false
truthy (num n) = true
truthy (str s) = if s == "" then false else true
truthy (arr xs) = true
truthy (obj fs) = true

-- A natural number as a value.
abbrev pub nat : ℕ → Json
nat n = num (integer (pos n))
