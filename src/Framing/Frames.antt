-- ===== src/Framing/Frames.antt =====
-- The parser reads back what `encodeContentLengthFrame` writes.
use emacs_llvm.Base.{
  ℕ, zero, suc, ◌%◌, ◌≤◌, ◌<◌, ◌≡◌, ◌≢◌, refl, sym, ap, ◌∙◌, Option, none, some, List, [], ◌∷◌,
  ◌++◌, append_assoc, append-nil, arith, length, length-append, take-length, drop-length, All,
  ltb-eq-false_of_le, All-append,
}
use emacs_llvm.Base.Bytes.{
  Text, codes, strip_prefix, text_eq, trim, trim_start, trim_end, split_once, decimal, IsDigits,
  decimal-IsDigits,
}
use emacs_llvm.Protocol.Errors.{ok}
use emacs_llvm.Framing.{
  read_as, blank_line, split_header, split_lines, ascii, content_length, frame, body_after,
  read_head, prepend, drain, push, encode_content_length_frame,
}
use emacs_llvm.Framing.Heads.{read_head_frame}

-- A byte of a header line: ASCII, and no end of a line.
abbrev IsPlain : ℕ → Type 0
IsPlain c = (c ≢ 13) × (c < 128)

abbrev type_line : Text
type_line = codes "Content-Type: application/json"

abbrev length_line : ℕ → Text
length_line n = codes "Content-Length: " ++ decimal n

split_header_plain :
    (xs ys header rest : Text)
    → All IsPlain xs
    → split_header ys ≡ some (header, rest)
    → split_header (xs ++ ys) ≡ some (xs ++ header, rest)
unfolding split_header strip_prefix
split_header_plain [] ys header rest h e = e
split_header_plain (x ∷ xs) ys header rest (h, hs) e =
    ground (arith, split_header_plain xs ys header rest hs e)

split_lines_plain :
    (cur xs ys : Text) → All IsPlain xs → split_lines cur (xs ++ ys) ≡ split_lines (cur ++ xs) ys
unfolding split_lines
split_lines_plain cur [] ys h = ap (λ c. split_lines c ys) (sym (append-nil cur))
split_lines_plain cur (x ∷ []) [] h = refl
split_lines_plain cur (x ∷ []) (y ∷ ys) (h, hs) = ground arith
split_lines_plain cur (x ∷ x' ∷ xs) ys (h, hs) =
    let later = split_lines_plain (cur ++ x ∷ []) (x' ∷ xs) ys hs in
    ground (arith, later, append_assoc cur (x ∷ []) (x' ∷ xs))

IsDigits-IsPlain : (ds : Text) → IsDigits ds → All IsPlain ds
IsDigits-IsPlain [] h = tt
IsDigits-IsPlain (d ∷ ds) ((lo, hi), h) = ((omega arith, omega arith), IsDigits-IsPlain ds h)

ascii_plain : (xs : Text) → All IsPlain xs → ascii xs ≡ xs
ascii_plain [] h = refl
ascii_plain (x ∷ xs) ((_, h), hs) =
    let same : x % 128 ≡ x = omega arith in rw (same, ascii_plain xs hs) refl

trim_end_digits : (ds : Text) → IsDigits ds → trim_end ds ≡ ds
unfolding trim_end
trim_end_digits [] h = refl
trim_end_digits (d ∷ []) ((lo, hi), h) = ground arith
trim_end_digits (d ∷ e ∷ ds) ((lo, hi), h) = rw (trim_end_digits (e ∷ ds) h) refl

trim_digits : (ds : Text) → IsDigits ds → trim (32 ∷ ds) ≡ ds
unfolding trim_start
trim_digits [] h = unfold trim_end in refl
trim_digits (d ∷ ds) ((lo, hi), h) =
    let kept : trim_start (d ∷ ds) ≡ d ∷ ds = ground arith in
    ap trim_end kept ∙ trim_end_digits (d ∷ ds) ((lo, hi), h)

length_line-IsPlain : (n : ℕ) → All IsPlain (length_line n)
length_line-IsPlain n =
    All-append IsPlain (codes "Content-Length: ") (decimal n) (omega arith)
      (IsDigits-IsPlain (decimal n) (decimal-IsDigits n))

header_found :
    (n : ℕ) (body : Text)
    → split_header (length_line n ++ (13 ∷ 10 ∷ type_line ++ (blank_line ++ body)))
      ≡ some (length_line n ++ 13 ∷ 10 ∷ type_line, body)
unfolding split_header strip_prefix
header_found n body =
    split_header_plain (length_line n) (13 ∷ 10 ∷ type_line ++ (blank_line ++ body))
      (13 ∷ 10 ∷ type_line) body (length_line-IsPlain n) refl

ascii-append : (xs ys : Text) → ascii (xs ++ ys) ≡ ascii xs ++ ascii ys
ascii-append [] ys = refl
ascii-append (x ∷ xs) ys = ap (◌∷◌ (x % 128)) (ascii-append xs ys)

lines_found :
    (n : ℕ)
    → split_lines [] (ascii (length_line n ++ 13 ∷ 10 ∷ type_line)) ≡ length_line n ∷ type_line ∷ []
unfolding split_lines
lines_found n =
    ap (split_lines []) (
      ascii-append (length_line n) (13 ∷ 10 ∷ type_line)
      ∙ ap (λ l. l ++ 13 ∷ 10 ∷ type_line) (ascii_plain (length_line n) (length_line-IsPlain n)))
    ∙ split_lines_plain [] (length_line n) (13 ∷ 10 ∷ type_line) (length_line-IsPlain n)

-- The bytes of several frames, one after the other.
abbrev pub encode_all : List Text → Text
encode_all [] = []
encode_all (body ∷ bodies) = encode_content_length_frame body ++ encode_all bodies

encode_shape :
    (body rest : Text)
    → encode_content_length_frame body ++ rest
      ≡ length_line (length body) ++ (13 ∷ 10 ∷ type_line ++ (blank_line ++ (body ++ rest)))
unfolding encode_content_length_frame
encode_shape body rest = simp append_assoc

module _ (number : Text → Option ℕ) (max_message_bytes : ℕ)
    (reads : (n : ℕ) → n ≤ max_message_bytes → number (decimal n) ≡ some n) where
  content_length_found :
      (n : ℕ)
      → n ≤ max_message_bytes
      → content_length number none (length_line n ∷ type_line ∷ []) ≡ ok (some n)
  unfolding content_length split_once trim_start trim_end text_eq
  content_length_found n h =
      let next = λ (found : Option ℕ). content_length number found (type_line ∷ []) in
      ap (λ r. read_as (number r) next) (trim_digits (decimal n) (decimal-IsDigits n))
      ∙ ap (λ r. read_as r next) (reads n h)

  body_found :
      (body rest : Text)
      → length body ≤ max_message_bytes
      → body_after number max_message_bytes (body ++ rest) (ok (some (length body)))
        ≡ frame body rest
  unfolding body_after
  body_found body rest h =
      rw
        (
          ltb-eq-false_of_le max_message_bytes (length body) h,
          ltb-eq-false_of_le (length (body ++ rest)) (length body)
              (omega (arith, length-append body rest)),
          take-length body rest,
          drop-length body rest,
        )
        refl

  -- A frame at the start of the buffer is found, whatever follows it.
  read_head-encode :
      (body rest : Text)
      → length body ≤ max_message_bytes
      → read_head number max_message_bytes (encode_content_length_frame body ++ rest)
        ≡ frame body rest
  unfolding read_head
  read_head-encode body rest h =
      rw
        (
          encode_shape body rest,
          header_found (length body) (body ++ rest),
          read_head,
          lines_found (length body),
          content_length_found (length body) h,
        )
        (body_found body rest h)

  drain-encode_all :
      (fuel : ℕ) (bodies : List Text)
      → All (λ b. length b ≤ max_message_bytes) bodies
      → length (encode_all bodies) < fuel
      → drain number max_message_bytes fuel (encode_all bodies) ≡ (ok bodies, [])
  unfolding drain
  drain-encode_all zero bodies h k = elim k [ ]
  drain-encode_all (suc fuel) [] h k = unfold read_head split_header in refl
  drain-encode_all (suc fuel) (body ∷ bodies) (h, hs) k =
      let shorter =
        (read_head_frame number max_message_bytes
          (encode_content_length_frame body ++ encode_all bodies) body (encode_all bodies)
          (read_head-encode body (encode_all bodies) h)).0 in
      rw (read_head-encode body (encode_all bodies) h, drain)
        (ap (prepend number max_message_bytes body) (drain-encode_all fuel bodies hs (omega arith)))

  -- If `Number` reads the decimal numbers up to the limit, messages within the limit that are framed
  -- and sent one after the other come out of an empty parser as they went in, and leave nothing in
  -- its buffer.
  pub push-encode_all :
      (bodies : List Text)
      → All (λ b. length b ≤ max_message_bytes) bodies
      → push number max_message_bytes [] (encode_all bodies) ≡ (ok bodies, [])
  unfolding push
  push-encode_all bodies h =
      drain-encode_all (suc (length (encode_all bodies))) bodies h (omega arith)
