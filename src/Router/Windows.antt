-- ===== src/Router/Windows.antt =====
-- packages/mcp-server/src/tools/toolRouter.ts: the tests of the tools `emacs_read` and
-- `emacs_capture`, before they ask for anything.
pub mod Bounds
use emacs_llvm.Base.{
  ℕ, String, Bool, true, false, ◌&&◌, ◌||◌, not, Option, none, some, List, [], ◌∷◌, if◌then◌else◌,
}
use emacs_llvm.Base.Json.{Json, num, Fields, end, field, at, Number, truthy}
use emacs_llvm.Base.Values.{fields, less, floor, least, greatest, clamp, natural, plus}
use emacs_llvm.Protocol.Errors.{
  Result, ok, err, throw, ensure, ◌>>=◌, ◌>>◌, internal, invalid_argument,
  native_driver_unavailable, screen_capture_not_granted, capture_failed,
}

-- The part of the buffer that is read.
pub record Window : Type 0 where
  pub point_min : Number
  pub point_max : Number
  pub start : Number
  pub requested_end : Number
  pub stop : Number

abbrev floored : Json → Number → Number
floored (num n) other = floor n
floored _ other = other

abbrev last_point : Json → Json → Number → Option Number
last_point (num n) size point_min = some (floor n)
last_point _ (num n) point_min = some (plus point_min (floor n))
last_point _ _ point_min = none

abbrev most_chars : Json → Number
most_chars (num n) = clamp 1 262144 (floor n)
most_chars _ = natural 32768

window_within : Number → Number → Fields → Result Window
window_within point_min point_max args = do
  let start = floored (at "start" args) point_min
  let requested_end = floored (at "end" args) point_max
  ensure (not (less start point_min || less point_max start)) invalid_argument
      "Read start is outside the accessible buffer."
      (some (
        fields (
          ("start", num start) ∷ ("point_min", num point_min) ∷ ("point_max", num point_max) ∷ [])))
  ensure (not (less requested_end start || less point_max requested_end)) invalid_argument
      "Read end is outside the accessible buffer or precedes start."
      (some (
        fields (
          ("start", num start)
          ∷ ("end", num requested_end)
          ∷ ("point_min", num point_min)
          ∷ ("point_max", num point_max)
          ∷ [])))
  ok (record {
    point_min = point_min;
    point_max = point_max;
    start = start;
    requested_end = requested_end;
    stop = least requested_end (plus start (most_chars (at "max_chars" args)));
  })

unfoldable pub read_window : Fields → Fields → Result Window
unfolding window_within
read_window buffer args =
    let point_min = floored (at "point_min" buffer) (natural 1) in
    elim (last_point (at "point_max" buffer) (at "size" buffer) point_min) [
      | none ↦ throw internal "Bridge observation did not provide buffer bounds." none
      | some point_max ↦ window_within point_min point_max args
    ]

-- The three tests on what the driver says that it can do.
unfoldable pub can_capture : Fields → Result (Unit {0})
can_capture capabilities = do
  ensure (truthy (at "connected" capabilities)) native_driver_unavailable
      "No native platform driver is connected." none
  ensure (truthy (at "screen_recording_granted" capabilities)) screen_capture_not_granted
      "Native window capture permission is not available to the connected Emacs Operator Host." none
  ensure (truthy (at "window_capture" capabilities)) capture_failed
      "The connected native host does not advertise window capture." none
