-- ===== src/BridgeClient/Cuts.antt =====
-- A client of the bridge and the chunks that its socket delivers.
pub mod Loop
use emacs_llvm.Base.{
  ℕ, ◌≡◌, refl, sym, ap, ◌∙◌, String, Option, none, some, List, [], ◌∷◌, ◌++◌, Option-cases, inl,
  inr, ◌⊎◌,
}
use emacs_llvm.Base.Map.{JsMap, get, delete}
use emacs_llvm.Base.Bytes.{Text}
use emacs_llvm.Base.Json.{Json, Fields, at}
use emacs_llvm.Base.Values.{string_of}
use emacs_llvm.Protocol.Errors.{Thrown, Result, ok, err}
use emacs_llvm.Framing.{push}
use emacs_llvm.Framing.Chunks.{resume, push-append}
use emacs_llvm.BridgeClient.{
  BridgeClient, Outcome, rejected, settle, reject_each, reject_all, Socket, no_socket, opening,
  opened, destroyed, destroy,
}
use emacs_llvm.BridgeClient.Messages.{
  Parsed, drop_all, receive, answer_of, settled_by, receive_text, members_of, receive_each,
  received, on_data,
}
use emacs_llvm.BridgeClient.Cuts.Loop.{keeping, receive_each-keeping, receive_each-append}

module _ (string : Json → Thrown ⊎ String) (parse : Text → Parsed) where
  module _ (number : Text → Option ℕ) (max_message_bytes : ℕ) where
    abbrev arrives : Text → BridgeClient → BridgeClient
    arrives = on_data string parse number max_message_bytes

    first_chunk :
        (first buffer : Text) (earlier : List Text) (c : BridgeClient)
        → push number max_message_bytes c.buffer first ≡ (ok earlier, buffer)
        → arrives first c ≡ keeping buffer (receive_each string parse earlier c)
    unfolding on_data
    first_chunk first buffer earlier c e =
        ap (λ (r : Result (List Text) × Text). received string parse number max_message_bytes r c) e
        ∙ receive_each-keeping string parse earlier buffer c

    second_chunk :
        (second buffer left : Text) (earlier bodies : List Text) (c : BridgeClient)
        (r : Result (List Text) × Text)
        → push number max_message_bytes buffer second ≡ r
        → resume number max_message_bytes (ok earlier, buffer) second ≡ (ok bodies, left)
        → arrives second (keeping buffer (receive_each string parse earlier c))
          ≡ receive_each string parse bodies (keeping left c)
    unfolding on_data
    second_chunk second buffer left earlier bodies c (err x, rest) e k = cc (rw e at k)
    second_chunk second buffer left earlier bodies c (ok later, rest) e k =
        let k' = rw e at k in
        let all : earlier ++ later ≡ bodies = cc in
        let end : rest ≡ left = cc in
        ap
          (λ (r : Result (List Text) × Text).
            received string parse number max_message_bytes r
              (keeping buffer (receive_each string parse earlier c)))
          e
        ∙ receive_each-keeping string parse later rest (receive_each string parse earlier c)
        ∙ ap (keeping rest) (sym (receive_each-append string parse earlier later c))
        ∙ sym (receive_each-keeping string parse (earlier ++ later) rest c)
        ∙ ap (λ (l : Text). receive_each string parse (earlier ++ later) (keeping l c)) end
        ∙ ap (λ (ts : List Text). receive_each string parse ts (keeping left c)) all

    -- What one chunk comes to, in which the parser finds no error, it also comes to in two chunks,
    -- wherever it is cut: the same requests are settled, in the same order, with the same outcomes.
    pub on_data-append :
        (first second left : Text) (bodies : List Text) (c : BridgeClient)
        → push number max_message_bytes c.buffer (first ++ second) ≡ (ok bodies, left)
        → arrives second (arrives first c) ≡ arrives (first ++ second) c
    unfolding on_data
    on_data-append first second left bodies c e =
        resumed (push number max_message_bytes c.buffer first) refl
          (sym (push-append number max_message_bytes c.buffer first second) ∙ e)
        ∙ sym (
            ap
              (λ (r : Result (List Text) × Text).
                received string parse number max_message_bytes r c)
              e)
      where
        resumed :
            (r : Result (List Text) × Text)
            → push number max_message_bytes c.buffer first ≡ r
            → resume number max_message_bytes (push number max_message_bytes c.buffer first) second
              ≡ (ok bodies, left)
            → arrives second (arrives first c) ≡ receive_each string parse bodies (keeping left c)
        resumed (err x, buffer) h k = cc (rw h at k)
        resumed (ok earlier, buffer) h k =
            ap (arrives second) (first_chunk first buffer earlier c h)
            ∙ second_chunk second buffer left earlier bodies c
                (push number max_message_bytes buffer second) refl (rw h at k)
