-- ===== src/Framing/Chunks.antt =====
-- The parser does not see how the bytes of the stream are cut into chunks.
use emacs_llvm.Base.{
  ℕ, zero, suc, ◌≤◌, ◌<◌, ◌≡◌, refl, sym, ap, ◌∙◌, Option, List, [], ◌∷◌, ◌++◌, append_assoc, arith,
  length, length-append, inl, inr, ◌⊎◌, All,
}
use emacs_llvm.Base.Bytes.{Text}
use emacs_llvm.Protocol.Errors.{OperatorError, Result, ok, err}
use emacs_llvm.Framing.{Head, incomplete, frame, malformed, read_head, prepend, drain, push}
use emacs_llvm.Framing.Heads.{read_head-Extends, read_head_frame}

module _ (number : Text → Option ℕ) (max_message_bytes : ℕ) where
  -- One round of the loop, by what stands at the start of the buffer.
  abbrev after_head : Head → Text → (Text → Result (List Text) × Text) → Result (List Text) × Text
  after_head incomplete buffer loop = (ok [], buffer)
  after_head (malformed e) buffer loop = (err e, buffer)
  after_head (frame body rest) buffer loop = prepend number max_message_bytes body (loop rest)

  drain-suc :
      (fuel : ℕ) (buffer : Text)
      → drain number max_message_bytes (suc fuel) buffer
        ≡ after_head
            (read_head number max_message_bytes buffer)
            buffer
            (drain number max_message_bytes fuel)
  unfolding drain
  drain-suc fuel buffer = ground arith

  abbrev run : ℕ → Text → Result (List Text) × Text
  run fuel buffer = drain number max_message_bytes fuel buffer

  abbrev head : Text → Head
  head buffer = read_head number max_message_bytes buffer

  -- The cases of what is found.
  Head-cases :
      (h : Head)
      → (h ≡ incomplete)
        ⊎ ((e : OperatorError) × (h ≡ malformed e))
        ⊎ ((body : Text) × (rest : Text) × (h ≡ frame body rest))
  Head-cases incomplete = inl refl
  Head-cases (malformed e) = inr (inl (e, refl))
  Head-cases (frame body rest) = inr (inr (body, rest, refl))

  -- Any fuel above the length of the buffer gives the same.
  drain_fuel :
      (f g : ℕ) (buffer : Text)
      → length buffer < f
      → length buffer < g
      → run f buffer ≡ run g buffer
  drain_fuel zero g buffer h k = elim h [ ]
  drain_fuel (suc f) zero buffer h k = elim k [ ]
  drain_fuel (suc f) (suc g) buffer h k = elim (Head-cases (head buffer)) [
    | inl e ↦ rw (drain-suc f buffer, drain-suc g buffer, e) refl
    | inr (inl (x, e)) ↦ rw (drain-suc f buffer, drain-suc g buffer, e) refl
    | inr (inr (body, rest, e)) ↦
        let (less, _) = read_head_frame number max_message_bytes buffer body rest e in
        rw (drain-suc f buffer, drain-suc g buffer, e)
          (ap (prepend number max_message_bytes body)
            (drain_fuel f g rest (omega arith) (omega arith)))
  ]

  -- What comes of a first outcome when `more` arrives.
  abbrev prepend_all : List Text → Result (List Text) × Text → Result (List Text) × Text
  prepend_all bodies (ok later, buffer) = (ok (bodies ++ later), buffer)
  prepend_all bodies (err e, buffer) = (err e, buffer)

  abbrev pub resume : Result (List Text) × Text → Text → Result (List Text) × Text
  resume (ok bodies, buffer) more = prepend_all bodies (push number max_message_bytes buffer more)
  resume (err e, buffer) more = (err e, buffer ++ more)

  prepend-resume :
      (body : Text) (r : Result (List Text) × Text) (more : Text)
      → prepend number max_message_bytes body (resume r more)
        ≡ resume (prepend number max_message_bytes body r) more
  prepend-resume body (ok bodies, buffer) more =
      prepend-all body bodies (push number max_message_bytes buffer more)
    where
      prepend-all :
          (body : Text) (bodies : List Text) (r : Result (List Text) × Text)
          → prepend number max_message_bytes body (prepend_all bodies r)
            ≡ prepend_all (body ∷ bodies) r
      prepend-all body bodies (ok later, buffer) = refl
      prepend-all body bodies (err e, buffer) = refl
  prepend-resume body (err e, buffer) more = refl

  prepend_all-nil : (r : Result (List Text) × Text) → r ≡ prepend_all [] r
  prepend_all-nil (ok later, buffer) = refl
  prepend_all-nil (err e, buffer) = refl

  drain-append :
      (f g : ℕ) (buffer more : Text)
      → length buffer < f
      → length (buffer ++ more) < g
      → run g (buffer ++ more) ≡ resume (run f buffer) more
  unfolding push
  drain-append zero g buffer more h k = elim h [ ]
  drain-append (suc f) zero buffer more h k = elim k [ ]
  drain-append (suc f) (suc g) buffer more h k = elim (Head-cases (head buffer)) [
    | inl e ↦
        rw (drain-suc f buffer, e)
          (drain_fuel (suc g) (suc (length (buffer ++ more))) (buffer ++ more) k (omega arith)
            ∙ prepend_all-nil (push number max_message_bytes buffer more))
    | inr (inl (x, e)) ↦
        let e' : head (buffer ++ more) ≡ malformed x =
          rw e at (read_head-Extends number max_message_bytes buffer more) in
        rw (drain-suc f buffer, e, drain-suc g (buffer ++ more), e') refl
    | inr (inr (body, rest, e)) ↦
        let e' : head (buffer ++ more) ≡ frame body (rest ++ more) =
          rw e at (read_head-Extends number max_message_bytes buffer more) in
        let (less, _) = read_head_frame number max_message_bytes buffer body rest e in
        rw (drain-suc f buffer, e, drain-suc g (buffer ++ more), e')
          (ap (prepend number max_message_bytes body) (
              drain-append f g rest more (omega arith)
                (omega (arith, length-append rest more, length-append buffer more)))
            ∙ prepend-resume body (run f rest) more)
  ]

  -- Two chunks one after the other give what they give as one chunk: the messages of the first and
  -- then those of the second, and the same bytes kept; an error of the first chunk stays the outcome.
  pub push-append :
      (buffer first second : Text)
      → push number max_message_bytes buffer (first ++ second)
        ≡ resume (push number max_message_bytes buffer first) second
  unfolding push
  push-append buffer first second =
      let whole = append_assoc buffer first second in
      ap (λ b. run (suc (length b)) b) (sym whole)
      ∙ drain-append (suc (length (buffer ++ first))) (suc (length ((buffer ++ first) ++ second)))
          (buffer ++ first) second (omega arith) (omega arith)

  -- What a call that does not throw leaves: no message that is complete, and none too long.
  abbrev Settled : Result (List Text) × Text → Type 0
  Settled (ok bodies, left) =
      (head left ≡ incomplete) × All (λ b. length b ≤ max_message_bytes) bodies
  Settled (err e, left) = Unit

  prepend-Settled :
      (body : Text) (r : Result (List Text) × Text)
      → length body ≤ max_message_bytes
      → Settled r
      → Settled (prepend number max_message_bytes body r)
  prepend-Settled body (ok bodies, left) h s = (s.0, (h, s.1))
  prepend-Settled body (err e, left) h s = tt

  drain-Settled : (f : ℕ) (buffer : Text) → length buffer < f → Settled (run f buffer)
  drain-Settled zero buffer h = elim h [ ]
  drain-Settled (suc f) buffer h = elim (Head-cases (head buffer)) [
    | inl e ↦ rw (drain-suc f buffer, e) (e, tt)
    | inr (inl (x, e)) ↦ rw (drain-suc f buffer, e) tt
    | inr (inr (body, rest, e)) ↦
        let (less, short) = read_head_frame number max_message_bytes buffer body rest e in
        rw (drain-suc f buffer, e)
          (prepend-Settled body (run f rest) short (drain-Settled f rest (omega arith)))
  ]

  -- A call that does not throw has taken every complete message off the buffer, and none of those
  -- that it returns is longer than the limit.
  push_settled :
      (buffer chunk left : Text) (bodies : List Text)
      → push number max_message_bytes buffer chunk ≡ (ok bodies, left)
      → (head left ≡ incomplete) × All (λ b. length b ≤ max_message_bytes) bodies
  unfolding push
  push_settled buffer chunk left bodies e =
      rw e at (drain-Settled (suc (length (buffer ++ chunk))) (buffer ++ chunk) (omega arith))
