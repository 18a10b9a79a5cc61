-- ===== src/Tests/Framing.antt =====
-- The frame parser at concrete streams. `Number` is a reader of decimal digits.
use emacs_llvm.Base.{
  ℕ, zero, suc, ◌+◌, ◌-◌, ◌*◌, ◌≤◌, ◌≡◌, refl, Option, none, some, [], ◌∷◌, ◌++◌, arith,
  if◌then◌else◌,
}
use emacs_llvm.Base.Bytes.{
  Text, codes, decimal, is_digit, strip_prefix, split_once, trim_start, trim_end, text_eq,
}
use emacs_llvm.Protocol.Errors.{ok}
use emacs_llvm.Framing.{
  split_header, split_lines, content_length, read_head, push, drain, encode_content_length_frame,
}
use emacs_llvm.Framing.Chunks.{resume, push-append}
use emacs_llvm.Framing.Frames.{encode_all, push-encode_all}

-- The value of a text of digits.
unfoldable pub value_from : ℕ → Text → Option ℕ
value_from n [] = some n
value_from n (d ∷ ds) = if is_digit d then value_from (n * 10 + (d - 48)) ds else none

abbrev pub number : Text → Option ℕ
number ds = value_from 0 ds

framing : Unit {0}
unfolding push drain read_head split_header split_lines content_length strip_prefix split_once
    trim_start trim_end text_eq encode_content_length_frame decimal value_from
framing = tt

abbrev hello : Text
hello = codes "{}"

two_frames :
    push number 100 []
      (encode_content_length_frame hello ++ encode_content_length_frame (codes "[]"))
    ≡ (ok (hello ∷ codes "[]" ∷ []), [])
unfolding framing
two_frames = refl

abbrev first_half : Text
first_half = codes "Content-Len"

abbrev second_half : Text
second_half = codes "gth: 2" ++ 13 ∷ 10 ∷ 13 ∷ 10 ∷ hello

push-append_example :
    push number 100 [] (first_half ++ second_half)
    ≡ resume number 100 (push number 100 [] first_half) second_half
push-append_example = push-append number 100 [] first_half second_half

pub small_numbers : (n : ℕ) → n ≤ 2 → number (decimal n) ≡ some n
unfolding decimal value_from
small_numbers zero h = refl
small_numbers (suc zero) h = refl
small_numbers (suc (suc zero)) h = refl
small_numbers (suc (suc (suc n))) h = absurd (omega arith)

push-encode_all_example :
    push number 2 [] (encode_all (hello ∷ codes "[]" ∷ [])) ≡ (ok (hello ∷ codes "[]" ∷ []), [])
push-encode_all_example =
    push-encode_all number 2 small_numbers (hello ∷ codes "[]" ∷ []) (omega arith)
