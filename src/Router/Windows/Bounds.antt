-- ===== src/Router/Windows/Bounds.antt =====
-- packages/mcp-server/src/tools/toolRouter.ts: the bounds of what `emacs_read` asks for.
use emacs_llvm.Base.{false, ◌≡◌, arith, inl, inr, Option-cases}
use emacs_llvm.Base.Json.{Fields, Number, at}
use emacs_llvm.Base.Values.{less, least, plus, natural}
use emacs_llvm.Protocol.Errors.{ok}
use emacs_llvm.Router.Windows.{Window, floored, last_point, most_chars, window_within, read_window}

abbrev IsWithin : Window → Fields → Type 0
IsWithin w args =
    (less w.start w.point_min ≡ false)
    × (less w.point_max w.start ≡ false)
    × (less w.requested_end w.start ≡ false)
    × (less w.point_max w.requested_end ≡ false)
    × (w.stop ≡ least w.requested_end (plus w.start (most_chars (at "max_chars" args))))

window_within_bounds :
    (point_min point_max : Number) (args : Fields) (w : Window)
    → window_within point_min point_max args ≡ ok w
    → IsWithin w args
unfolding window_within
window_within_bounds point_min point_max args w h = ground arith

-- A window that is read lies in the accessible part of the buffer, its end is not before its start,
-- and its stop is the end that was requested or, if that comes first, the most characters after the
-- start.
read_window_bounds :
    (buffer args : Fields) (w : Window) → read_window buffer args ≡ ok w → IsWithin w args
unfolding read_window
read_window_bounds buffer args w h =
    let point_min = floored (at "point_min" buffer) (natural 1) in
    elim (Option-cases (last_point (at "point_max" buffer) (at "size" buffer) point_min)) [
      | inl missing ↦ cc (rw (missing, read_window) at h)
      | inr (point_max, found) ↦
          window_within_bounds point_min point_max args w (rw (found, read_window) at h)
    ]
