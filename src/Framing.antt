-- ===== src/Framing.antt =====
-- packages/bridge-client/src/framing.ts: the `Content-Length` frames of the bridge, over bytes. The
-- messages are given as their bytes: `toString("utf8")` and `JSON.stringify` are outside the file.
pub mod Heads
pub mod Chunks
pub mod Frames
use emacs_llvm.Base.{
  ℕ, zero, suc, ◌+◌, ◌%◌, Bool, true, false, Option, none, some, List, [], ◌∷◌, ◌++◌, map, ◌&&◌,
  if◌then◌else◌, ltb, ◌==◌, length, take, drop,
}
use emacs_llvm.Base.Bytes.{Text, codes, strip_prefix, text_eq, trim, to_lower, split_once, decimal}
use emacs_llvm.Base.Json.{field, nat, end}
use emacs_llvm.Protocol.Errors.{
  OperatorError, operator_error, Result, ok, err, throw, invalid_argument,
}

-- "\r\n\r\n"
abbrev pub blank_line : Text
blank_line = 13 ∷ 10 ∷ 13 ∷ 10 ∷ []

-- The header before the first blank line, and the bytes behind that line.
unfoldable pub split_header : Text → Option (Text × Text)
split_header [] = none
split_header (b ∷ bs) = elim (strip_prefix blank_line (b ∷ bs)) [
  | some rest ↦ some ([], rest)
  | none ↦ elim (split_header bs) [ none ↦ none | some (header, rest) ↦ some (b ∷ header, rest) ]
]

-- `header.split("\r\n")`; `cur` is the line read so far.
unfoldable pub split_lines : Text → Text → List Text
split_lines cur [] = cur ∷ []
split_lines cur (c ∷ []) = (cur ++ c ∷ []) ∷ []
split_lines cur (c ∷ d ∷ cs) =
    let closed = cur ∷ split_lines [] cs in
    let longer = split_lines (cur ++ c ∷ []) (d ∷ cs) in
    if c == 13 && d == 10 then closed else longer

-- The decoding of the header as ASCII keeps seven bits of each byte.
abbrev pub ascii : Text → Text
ascii = map λ b. b % 128

-- A value that is no length is refused; another one goes on.
abbrev pub read_as : Option ℕ → (Option ℕ → Result (Option ℕ)) → Result (Option ℕ)
read_as none next = throw invalid_argument "Invalid Content-Length header." none
read_as (some n) next = next (some n)

-- `number` is `Number` at a text, where that is a safe integer that is not negative.
module _ (number : Text → Option ℕ) where
  unfoldable pub content_length : Option ℕ → List Text → Result (Option ℕ)
  content_length found [] = ok found
  content_length found (line ∷ lines) = elim (split_once 58 line) [
    | none ↦ content_length found lines
    | some (name, value) ↦
        let skipped = content_length found lines in
        let read = read_as (number (trim value)) (λ found'. content_length found' lines) in
        if text_eq (map to_lower (trim name)) (codes "content-length") then read else skipped
  ]

-- What the parser finds at the start of its buffer.
pub data Head : Type 0 where
  incomplete : Head
  frame : Text → Text → Head
  malformed : OperatorError → Head

module _ (number : Text → Option ℕ) (max_message_bytes : ℕ) where
  body_after : Text → Result (Option ℕ) → Head
  body_after rest (err e) = malformed e
  body_after rest (ok none) =
      malformed (operator_error invalid_argument "Missing Content-Length header." none)
  body_after rest (ok (some n)) =
      if ltb max_message_bytes n
      then malformed (
          operator_error invalid_argument "Bridge message exceeds configured size limit." (
            some (
              field "content_length" (nat n)
                (field "max_message_bytes" (nat max_message_bytes) end))))
      else if ltb (length rest) n
      then incomplete
      else frame (take n rest) (drop n rest)

  unfoldable pub read_head : Text → Head
  unfolding body_after
  read_head buffer = elim (split_header buffer) [
    | none ↦ incomplete
    | some (header, rest) ↦
        body_after rest (content_length number none (split_lines [] (ascii header)))
  ]

  -- What `output.push(body)` comes to, where the call may throw later.
  abbrev pub prepend : Text → Result (List Text) × Text → Result (List Text) × Text
  prepend body (ok bodies, buffer) = (ok (body ∷ bodies), buffer)
  prepend body (err e, buffer) = (err e, buffer)

  -- The loop of `push`, with the buffer that it leaves, also where it throws.
  unfoldable pub drain : ℕ → Text → Result (List Text) × Text
  drain zero buffer = (ok [], buffer)
  drain (suc fuel) buffer = elim (read_head buffer) [
    | incomplete ↦ (ok [], buffer)
    | malformed e ↦ (err e, buffer)
    | frame body rest ↦ prepend body (drain fuel rest)
  ]

  -- Each round takes four bytes at least off the buffer.
  unfoldable pub push : Text → Text → Result (List Text) × Text
  push buffer chunk = drain (suc (length (buffer ++ chunk))) (buffer ++ chunk)

unfoldable pub encode_content_length_frame : Text → Text
encode_content_length_frame body =
    codes "Content-Length: "
    ++ (decimal (length body)
        ++ (13 ∷ 10 ∷ codes "Content-Type: application/json" ++ (blank_line ++ body)))
