-- ===== src/Base/Bytes.antt =====
-- Text as a list of numbers: the bytes of a buffer, or the code units of a string.
use Prim.Native.Nat.{ℕ, zero, suc, ◌+◌, ◌/◌, ◌%◌, ◌≤◌}
use Prim.Native.Char.{code}
use Prim.Native.String.{String}
use mathlib.Core.Path.{◌≡◌, refl}
use mathlib.Core.Bool.{Bool, true, false, ◌||◌, ◌&&◌}
use mathlib.Core.Option.{Option, none, some}
use mathlib.Core.List.{List, [], ◌∷◌, ◌++◌}
use native.Mathlib.Omega.{arith}
use emacs_llvm.Base.Tests.{if◌then◌else◌, ◌==◌, leb, ltb}
use emacs_llvm.Base.Lists.{length, All}

abbrev pub Text : Type 0
Text = List ℕ

abbrev pub codes : String → Text
codes String.[] = []
codes (String.◌∷◌ c s) = code c ∷ codes s

-- What follows a prefix, if the text has it.
unfoldable pub strip_prefix : Text → Text → Option Text
strip_prefix [] ys = some ys
strip_prefix (x ∷ xs) [] = none
strip_prefix (x ∷ xs) (y ∷ ys) = let rest = strip_prefix xs ys in if x == y then rest else none

-- `===` on texts.
unfoldable pub text_eq : Text → Text → Bool
text_eq [] [] = true
text_eq [] (y ∷ ys) = false
text_eq (x ∷ xs) [] = false
text_eq (x ∷ xs) (y ∷ ys) = x == y && text_eq xs ys

-- The white space of ASCII, as `trim` and `/\s/` have it.
abbrev is_space : ℕ → Bool
is_space c = (leb 9 c && leb c 13) || c == 32

unfoldable pub trim_start : Text → Text
trim_start [] = []
trim_start (c ∷ cs) = if is_space c then trim_start cs else c ∷ cs

abbrev cons_trimmed : ℕ → Text → Text
cons_trimmed c [] = if is_space c then [] else c ∷ []
cons_trimmed c (d ∷ ds) = c ∷ d ∷ ds

unfoldable pub trim_end : Text → Text
trim_end [] = []
trim_end (c ∷ cs) = cons_trimmed c (trim_end cs)

abbrev pub trim : Text → Text
trim cs = trim_end (trim_start cs)

abbrev pub to_lower : ℕ → ℕ
to_lower c = if leb 65 c && leb c 90 then c + 32 else c

-- The text before the first occurrence of a character, and that after it.
unfoldable pub split_once : ℕ → Text → Option (Text × Text)
split_once c [] = none
split_once c (d ∷ ds) =
    if d == c
    then some ([], ds)
    else elim (split_once c ds) [ none ↦ none | some (a, b) ↦ some (d ∷ a, b) ]

abbrev pub is_digit : ℕ → Bool
is_digit c = leb 48 c && leb c 57

-- The decimal digits of a number, as `String` prints it; `fuel` above the number is enough.
decimal_from : ℕ → ℕ → Text → Text
decimal_from zero n out = out
decimal_from (suc fuel) n out =
    let out' = (48 + n % 10) ∷ out in
    let rest = decimal_from fuel (n / 10) out' in if ltb n 10 then out' else rest

unfoldable pub decimal : ℕ → Text
unfolding decimal_from
decimal n = decimal_from (suc n) n []

abbrev pub IsDigits : Text → Type 0
IsDigits ds = All (λ d. (48 ≤ d) × (d ≤ 57)) ds

decimal_from-IsDigits :
    (fuel n : ℕ) (out : Text) → IsDigits out → IsDigits (decimal_from fuel n out)
unfolding decimal_from
decimal_from-IsDigits zero n out h = h
decimal_from-IsDigits (suc fuel) n out h =
    let digit : (48 ≤ 48 + n % 10) × (48 + n % 10 ≤ 57) = omega arith in
    ground (arith, digit, decimal_from-IsDigits fuel (n / 10) ((48 + n % 10) ∷ out) (digit, h))

pub decimal-IsDigits : (n : ℕ) → IsDigits (decimal n)
unfolding decimal
decimal-IsDigits n = decimal_from-IsDigits (suc n) n [] tt

pub strip_prefix-append :
    (p xs r ys : Text) → strip_prefix p xs ≡ some r → strip_prefix p (xs ++ ys) ≡ some (r ++ ys)
unfolding strip_prefix
strip_prefix-append [] xs r ys h = ground arith
strip_prefix-append (x ∷ p) [] r ys h = cc
strip_prefix-append (x ∷ p) (y ∷ xs) r ys h = ground (arith, strip_prefix-append p xs r ys)

pub strip_prefix-append_none :
    (p xs ys : Text)
    → length p ≤ length xs
    → strip_prefix p xs ≡ none
    → strip_prefix p (xs ++ ys) ≡ none
unfolding strip_prefix
strip_prefix-append_none [] xs ys l h = cc
strip_prefix-append_none (x ∷ p) [] ys l h = absurd (omega arith)
strip_prefix-append_none (x ∷ p) (y ∷ xs) ys l h = ground (arith, strip_prefix-append_none p xs ys)

pub strip_prefix-length :
    (p xs r : Text) → strip_prefix p xs ≡ some r → length xs ≡ length p + length r
unfolding strip_prefix
strip_prefix-length [] xs r h = ground arith
strip_prefix-length (x ∷ p) [] r h = cc
strip_prefix-length (x ∷ p) (y ∷ xs) r h = ground (arith, strip_prefix-length p xs r)

pub text_eq_iff_refl : (xs : Text) → text_eq xs xs ≡ true
unfolding text_eq
text_eq_iff_refl [] = refl
text_eq_iff_refl (x ∷ xs) = ground (arith, text_eq_iff_refl xs)

pub text_eq→eq : (xs ys : Text) → text_eq xs ys ≡ true → xs ≡ ys
unfolding text_eq
text_eq→eq [] [] h = refl
text_eq→eq [] (y ∷ ys) h = cc
text_eq→eq (x ∷ xs) [] h = cc
text_eq→eq (x ∷ xs) (y ∷ ys) h = ground (arith, text_eq→eq xs ys)
