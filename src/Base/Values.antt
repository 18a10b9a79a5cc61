-- ===== src/Base/Values.antt =====
-- What the language does with the values of Base/Json: objects, members, and numbers.
use Prim.Native.Nat.{ℕ, suc, ◌+◌, ◌-◌}
use Prim.Native.String.{String}
use mathlib.Core.Bool.{Bool, true, false, ◌&&◌, ◌||◌}
use mathlib.Core.Option.{Option, none, some}
use mathlib.Core.List.{List, [], ◌∷◌}
use text.Mathlib.Text.{◌==◌ as str_eq}
use emacs_llvm.Base.Tests.{if◌then◌else◌, ltb, ◌==◌}
use emacs_llvm.Base.Json.{
  ℤ, pos, negsuc, Number, integer, fractional, not_a_number, infinity, minus_infinity, Json,
  undefined, null, bool, num, str, arr, obj, Items, nil, cons, Fields, end, field,
}

-- An object literal, and an array literal.
abbrev pub fields : List (String × Json) → Fields
fields [] = end
fields ((k, v) ∷ m) = field k v (fields m)

abbrev pub object : List (String × Json) → Json
object m = obj (fields m)

abbrev pub items : List Json → Items
items [] = nil
items (x ∷ xs) = cons x (items xs)

abbrev pub array : List Json → Json
array xs = arr (items xs)

-- `object[key] = value`.
unfoldable pub put : String → Json → Fields → Fields
put k v end = field k v end
put k v (field j w fs) = if str_eq j k then field j v fs else field j w (put k v fs)

-- `{ ...object, …members }`.
unfoldable pub assign : Fields → Fields → Fields
assign fs end = fs
assign fs (field k v more) = assign (put k v fs) more

-- `value ?? other`.
unfoldable pub or_else : Json → Json → Json
or_else undefined other = other
or_else null other = other
or_else value other = value

-- The members of an object that is no array; of any other value there are none.
abbrev pub record_of : Json → Fields
record_of (obj fs) = fs
record_of _ = end

-- `value && typeof value === "object"`, with what is then read of it: an array has no such members.
abbrev pub object_of : Json → Option Fields
object_of (obj fs) = some fs
object_of (arr xs) = some end
object_of _ = none

abbrev pub string_of : Json → Option String
string_of (str s) = some s
string_of _ = none

abbrev pub number_of : Json → Option Number
number_of (num n) = some n
number_of _ = none

-- `value === true`, and `value !== false`.
abbrev pub is_true : Json → Bool
is_true (bool true) = true
is_true _ = false

abbrev pub is_not_false : Json → Bool
is_not_false (bool false) = false
is_not_false _ = true

-- `typeof value === "string" ? value : null`, and so on.
abbrev pub string_or_null : Json → Json
string_or_null (str s) = str s
string_or_null _ = null

abbrev pub number_or_null : Json → Json
number_or_null (num n) = num n
number_or_null _ = null

abbrev pub nullable : Option String → Json
nullable none = null
nullable (some s) = str s

abbrev ltz : ℤ → ℤ → Bool
ltz (pos m) (pos n) = ltb m n
ltz (pos m) (negsuc n) = false
ltz (negsuc m) (pos n) = true
ltz (negsuc m) (negsuc n) = ltb n m

abbrev eqz : ℤ → ℤ → Bool
eqz (pos m) (pos n) = m == n
eqz (negsuc m) (negsuc n) = m == n
eqz _ _ = false

-- `m < n`: no comparison with a `NaN` holds.
unfoldable pub less : Number → Number → Bool
less (integer m) (integer n) = ltz m n
less (integer m) (fractional n s) = ltz m n || eqz m n
less (integer m) infinity = true
less (fractional m r) (integer n) = ltz m n
less (fractional m r) (fractional n s) = ltz m n || (eqz m n && ltb r s)
less (fractional m r) infinity = true
less minus_infinity (integer n) = true
less minus_infinity (fractional n s) = true
less minus_infinity infinity = true
less _ _ = false

-- `===` on numbers.
unfoldable pub equal : Number → Number → Bool
equal (integer m) (integer n) = eqz m n
equal (fractional m r) (fractional n s) = eqz m n && r == s
equal infinity infinity = true
equal minus_infinity minus_infinity = true
equal _ _ = false

abbrev pub natural : ℕ → Number
natural n = integer (pos n)

-- `Math.floor`, `Math.min` and `Math.max`; the last two give `NaN` if one argument is.
unfoldable pub floor : Number → Number
floor (fractional n r) = integer n
floor n = n

abbrev is_nan : Number → Bool
is_nan not_a_number = true
is_nan _ = false

unfoldable pub least : Number → Number → Number
least m n = if is_nan m || is_nan n then not_a_number else if less n m then n else m

unfoldable pub greatest : Number → Number → Number
greatest m n = if is_nan m || is_nan n then not_a_number else if less m n then n else m

-- `Math.min(high, Math.max(low, n))`.
abbrev pub clamp : ℕ → ℕ → Number → Number
clamp low high n = least (natural high) (greatest (natural low) n)

-- `Math.min(high, Math.max(low, Math.floor(n)))`, for a number that was read from JSON text, which
-- has no `NaN`.
abbrev pub clamp_floor : ℕ → ℕ → Number → ℕ
clamp_floor low high (integer (pos n)) = if ltb n low then low else if ltb high n then high else n
clamp_floor low high (fractional (pos n) r) =
    if ltb n low then low else if ltb high n then high else n
clamp_floor low high infinity = high
clamp_floor low high _ = low

abbrev sub_nat : ℕ → ℕ → ℤ
sub_nat m n = if ltb m n then negsuc (n - m - 1) else pos (m - n)

abbrev plusz : ℤ → ℤ → ℤ
plusz (pos m) (pos n) = pos (m + n)
plusz (pos m) (negsuc n) = sub_nat m (suc n)
plusz (negsuc m) (pos n) = sub_nat n (suc m)
plusz (negsuc m) (negsuc n) = negsuc (suc (m + n))

-- `m + n` where both have been rounded down and are small enough to be added exactly.
unfoldable pub plus : Number → Number → Number
plus (integer m) (integer n) = integer (plusz m n)
plus infinity (integer n) = infinity
plus infinity infinity = infinity
plus (integer n) infinity = infinity
plus minus_infinity (integer n) = minus_infinity
plus minus_infinity minus_infinity = minus_infinity
plus (integer n) minus_infinity = minus_infinity
plus _ _ = not_a_number
