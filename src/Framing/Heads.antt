-- ===== src/Framing/Heads.antt =====
-- What the parser finds at the start of its buffer, and what more bytes behind leave of it.
use emacs_llvm.Base.{
  ℕ, ◌+◌, ◌≤◌, ◌≡◌, refl, ap, false, Option, none, some, [], ◌∷◌, ◌++◌, arith, length,
  length-append, length-drop, length-take, take-append_le, drop-append_le, ltb-eq-false_of_le, ltb,
  Option-cases, inl, inr, ◌⊎◌, Bool-cases,
}
use emacs_llvm.Base.Bytes.{
  Text, strip_prefix, strip_prefix-append, strip_prefix-append_none, strip_prefix-length,
}
use emacs_llvm.Protocol.Errors.{Result, ok, err}
use emacs_llvm.Framing.{
  blank_line, split_header, split_lines, ascii, content_length, Head, incomplete, frame, malformed,
  body_after, read_head,
}

-- Where a header is found: here, or behind the first byte.
split_header-cases :
    (b : ℕ) (bs header rest : Text)
    → split_header (b ∷ bs) ≡ some (header, rest)
    → ((header ≡ []) × (strip_prefix blank_line (b ∷ bs) ≡ some rest))
      ⊎ ((header' : Text) × (header ≡ b ∷ header')
          × (strip_prefix blank_line (b ∷ bs) ≡ none)
          × (split_header bs ≡ some (header', rest)))
unfolding split_header
split_header-cases b bs header rest h = elim (Option-cases (strip_prefix blank_line (b ∷ bs))) [
  | inr (r, e) ↦ inl (ground (arith, e), ground (arith, e))
  | inl e ↦ elim (Option-cases (split_header bs)) [
    | inl e' ↦ cc (rw (e, split_header, e') at h)
    | inr ((header', rest'), e') ↦ inr (header', ground (arith, e, e'), e, ground (arith, e, e'))
  ]
]

split_header_here :
    (b : ℕ) (bs rest : Text)
    → strip_prefix blank_line (b ∷ bs) ≡ some rest
    → split_header (b ∷ bs) ≡ some ([], rest)
unfolding split_header
split_header_here b bs rest e = ground (arith, e)

split_header_there :
    (b : ℕ) (bs header rest : Text)
    → strip_prefix blank_line (b ∷ bs) ≡ none
    → split_header bs ≡ some (header, rest)
    → split_header (b ∷ bs) ≡ some (b ∷ header, rest)
unfolding split_header
split_header_there b bs header rest e e' = ground (arith, e, e')

-- A header that is found takes up its bytes and four more.
split_header-length :
    (buffer header rest : Text)
    → split_header buffer ≡ some (header, rest)
    → length buffer ≡ length header + 4 + length rest
unfolding split_header
split_header-length [] header rest h = cc
split_header-length (b ∷ bs) header rest h = elim (split_header-cases b bs header rest h) [
  | inl (e, here) ↦ omega (arith, strip_prefix-length blank_line (b ∷ bs) rest here, ap length e)
  | inr (header', e, _, there) ↦
      omega (arith, split_header-length bs header' rest there, ap length e)
]

-- More bytes behind do not change the header that is found.
split_header-append :
    (buffer header rest more : Text)
    → split_header buffer ≡ some (header, rest)
    → split_header (buffer ++ more) ≡ some (header, rest ++ more)
unfolding split_header
split_header-append [] header rest more h = cc
split_header-append (b ∷ bs) header rest more h = elim (split_header-cases b bs header rest h) [
  | inl (e, here) ↦ rw e (
      split_header_here b (bs ++ more) (rest ++ more)
        (strip_prefix-append blank_line (b ∷ bs) rest more here))
  | inr (header', e, nothere, there) ↦ rw e (
      split_header_there b (bs ++ more) header' (rest ++ more)
        (strip_prefix-append_none blank_line (b ∷ bs) more
          (omega (arith, split_header-length bs header' rest there)) nothere)
        (split_header-append bs header' rest more there))
]

module _ (number : Text → Option ℕ) (max_message_bytes : ℕ) where
  -- Nor the message or the error that is found at the start of the buffer.
  abbrev Extends : Head → Head → Text → Type 0
  Extends incomplete later more = Unit
  Extends (frame body rest) later more = later ≡ frame body (rest ++ more)
  Extends (malformed e) later more = later ≡ malformed e

  body_after-Extends :
      (rest more : Text) (r : Result (Option ℕ))
      → Extends
          (body_after number max_message_bytes rest r)
          (body_after number max_message_bytes (rest ++ more) r)
          more
  unfolding body_after
  body_after-Extends rest more (err e) = refl
  body_after-Extends rest more (ok none) = refl
  body_after-Extends rest more (ok (some n)) = elim (Bool-cases (ltb max_message_bytes n)) [
    | inl big ↦ rw big refl
    | inr small ↦ elim (Bool-cases (ltb (length rest) n)) [
      | inl short ↦ rw (small, short) tt
      | inr enough ↦
          let fits : n ≤ length rest = ground arith in
          let enough' : ltb (length (rest ++ more)) n ≡ false =
            ltb-eq-false_of_le (length (rest ++ more)) n (omega (arith, length-append rest more)) in
          rw
            (
              small,
              enough,
              enough',
              take-append_le n rest more fits,
              drop-append_le n rest more fits,
            )
            refl
    ]
  ]

  pub read_head-Extends :
      (buffer more : Text)
      → Extends
          (read_head number max_message_bytes buffer)
          (read_head number max_message_bytes (buffer ++ more))
          more
  unfolding read_head
  read_head-Extends buffer more = elim (Option-cases (split_header buffer)) [
    | inl e ↦ rw (e, read_head) tt
    | inr ((header, rest), e) ↦
        rw (e, read_head, split_header-append buffer header rest more e)
          (body_after-Extends rest more
            (content_length number none (split_lines [] (ascii header))))
  ]

  body_after-length :
      (rest body rest' : Text) (r : Result (Option ℕ))
      → body_after number max_message_bytes rest r ≡ frame body rest'
      → (length rest' ≤ length rest) × (length body ≤ max_message_bytes)
  unfolding body_after
  body_after-length rest body rest' (err e) h = cc
  body_after-length rest body rest' (ok none) h = cc
  body_after-length rest body rest' (ok (some n)) h =
      ground (arith, length-drop n rest, length-take n rest)

  -- A message is no longer than the limit, and takes four bytes at least off the buffer.
  pub read_head_frame :
      (buffer body rest : Text)
      → read_head number max_message_bytes buffer ≡ frame body rest
      → (length rest + 4 ≤ length buffer) × (length body ≤ max_message_bytes)
  unfolding read_head
  read_head_frame buffer body rest h = elim (Option-cases (split_header buffer)) [
    | inl e ↦ cc (rw (e, read_head) at h)
    | inr ((header, after), e) ↦
        let found =
          body_after-length after body rest
            (content_length number none (split_lines [] (ascii header))) (rw (e, read_head) at h) in
        (omega (arith, found.0, split_header-length buffer header after e), found.1)
  ]
