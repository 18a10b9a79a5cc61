-- ===== src/Router/Open.antt =====
-- packages/mcp-server/src/tools/toolRouter.ts: `openSession`. The target that Emacs resolves is used
-- at its type, as `target_of` reads it; a number of state changes is a natural number.
use Prim.Native.String
use emacs_llvm.Base.{ℕ, String, Bool, ◌&&◌, Option, none, some, [], ◌∷◌, if◌then◌else◌, str_eq}
use emacs_llvm.Base.Json.{
  Json, bool, str, obj, Fields, end, field, at, Number, integer, pos, nat, truthy,
}
use emacs_llvm.Base.Values.{
  object, array, fields, assign, record_of, object_of, string_of, is_not_false,
}
use emacs_llvm.Base.Exec.{pure, lift, reads, ◌>>=◌, ◌>>◌}
use emacs_llvm.Protocol.Errors.{Result, ok, throw, policy_denied}
use emacs_llvm.Protocol.Envelope.{StateSummary}
use emacs_llvm.Protocol.Validation.{assert_object}
use emacs_llvm.Policy.{profile, channel_name}
use emacs_llvm.Sessions.{
  ExecutionChannel, semantic, internal_keys, native_keys, EmacsSession, SessionCapabilities,
  SessionTarget, SessionOpenInput, open_session,
}
use emacs_llvm.Router.State.{
  Server, Tool, bridge, driver, exchange, now, draw, with_sessions, set_instance,
}
use emacs_llvm.Router.Arguments.{member, state_summary}
use emacs_llvm.Router.Registry.{find_record, connect}

abbrev text_over : Json → String → String
text_over (str s) other = s
text_over _ other = other

abbrev members_of : Option Fields → Fields
members_of none = end
members_of (some fs) = fs

abbrev channels_of : Fields → Fields → ExecutionChannel → Bool
channels_of channels driver_can semantic = is_not_false (at "semantic" channels)
channels_of channels driver_can internal_keys = is_not_false (at "internal_keys" channels)
channels_of channels driver_can native_keys =
    truthy (at "connected" driver_can) && truthy (at "native_keyboard" driver_can)

unfoldable pub capabilities_of : Fields → Fields → SessionCapabilities
capabilities_of init driver_can = record {
  channels = channels_of (members_of (object_of (at "channels" init))) driver_can;
  features = assign (members_of (object_of (at "features" init))) (
      fields (
        ("native_driver", at "connected" driver_can)
        ∷ ("native_window_focus", at "window_focus" driver_can)
        ∷ ("native_window_capture", at "window_capture" driver_can)
        ∷ ("accessibility_trusted", at "accessibility_trusted" driver_can)
        ∷ ("screen_recording_granted", at "screen_recording_granted" driver_can)
        ∷ []));
}

abbrev if_truthy : String → Json → Fields → Fields
if_truthy key value rest = if truthy value then field key value rest else rest

abbrev first_observation : Fields → Json
first_observation target = object (
    (
      "target",
      obj (
          if_truthy "frame_id" (at "frame_id" target) (
            if_truthy "window_id" (at "window_id" target)
              (field "buffer_id" (at "buffer_id" target) end))),
    )
    ∷ ("scope", array (str "compact" ∷ []))
    ∷ ("around_chars", nat 256)
    ∷ [])

abbrev named_channel : String → Option ExecutionChannel
named_channel name =
    if str_eq name "semantic"
    then some semantic
    else if str_eq name "internal_keys"
    then some internal_keys
    else if str_eq name "native_keys"
    then some native_keys
    else none

abbrev unavailable : String → Result ExecutionChannel
unavailable name =
    throw policy_denied
      (String.◌++◌ "Requested default channel " (String.◌++◌ name " is unavailable.")) none

abbrev if_available :
    SessionCapabilities → String → Option ExecutionChannel → Result ExecutionChannel
if_available capabilities name none = unavailable name
if_available capabilities name (some channel) =
    if capabilities.channels channel then ok channel else unavailable name

unfoldable pub default_channel : Json → SessionCapabilities → Result ExecutionChannel
default_channel value capabilities =
    let name = text_over value "semantic" in if_available capabilities name (named_channel name)

abbrev count_of : Option Number → ℕ
count_of (some (integer (pos n))) = n
count_of _ = 0

abbrev state_seq_of : Option StateSummary → ℕ
state_seq_of none = 0
state_seq_of (some s) = count_of s.state_seq

-- A member that is left out if it has no value.
abbrev if_given : String → Option String → Fields → Fields
if_given key none rest = rest
if_given key (some s) rest = field key (str s) rest

abbrev target_json : SessionTarget → Json
target_json t = obj (
    if_given "bufferId" t.buffer_id (
      if_given "frameId" t.frame_id (
        if_given "frameTitle" t.frame_title (
          if_given "nativeWindowIdentifier" t.native_window_identifier (
            if_given "windowId" t.window_id
              (if_given "projectRoot" t.project_root (if_given "file" t.file end)))))))

unfoldable pub capabilities_json : SessionCapabilities → Json
capabilities_json c = object (
    (
      "channels",
      object (
          ("semantic", bool (c.channels semantic))
          ∷ ("internal_keys", bool (c.channels internal_keys))
          ∷ ("native_keys", bool (c.channels native_keys))
          ∷ []),
    )
    ∷ ("features", obj c.features)
    ∷ [])

unfoldable pub session_json : EmacsSession → Json
session_json e = object (
    ("sessionId", str e.session_id)
    ∷ ("instanceId", str e.instance_id)
    ∷ ("defaultChannel", str (channel_name e.default_channel))
    ∷ ("permissionProfile", str e.permission_profile)
    ∷ ("target", target_json e.target)
    ∷ ("capabilities", capabilities_json e.capabilities)
    ∷ ("stateSeqAtOpen", nat e.state_seq_at_open)
    ∷ ("createdAt", nat e.created_at)
    ∷ ("lastUsedAt", nat e.last_used_at)
    ∷ ("leaseOwner", str e.lease_owner)
    ∷ [])

unfoldable pub register : SessionOpenInput → Tool EmacsSession
register input = do
  opened_at ← now
  uuid ← draw
  with_sessions (λ m. let (e, m') = open_session input uuid opened_at m in (ok e, m'))

unfoldable pub emacs_session_open : Fields → Tool Json
emacs_session_open args = do
  selector ← lift (assert_object (at "selector" args) "selector")
  found ← find_record (string_of (at "instance_id" selector))
  set_instance found.instance_id
  let permission_profile = text_over (at "permission_profile" args) "workspace_edit"
  lift (profile permission_profile)
  init ← connect found
  target ←
      exchange (bridge found.instance_id) none "session.target.resolve"
        (object (("selector", obj selector) ∷ []))
  channels ← lift (member "channels" init)
  driver_can ← exchange driver none "initialize" (obj end)
  let capabilities = capabilities_of (record_of init) (record_of driver_can)
  frame ← lift (member "frame_id" target)
  observed ←
      exchange (bridge found.instance_id) none "state.observe"
        (first_observation (record_of target))
  channel ← lift (default_channel (at "default_channel" args) capabilities)
  resolved ← reads (λ (s : Server). s.world.target_of target)
  session ← register (record {
    instance_id = found.instance_id;
    default_channel = channel;
    permission_profile = permission_profile;
    target = resolved;
    capabilities = capabilities;
    state_seq_at_open = state_seq_of (state_summary observed);
    lease_owner = none;
  })
  pure (
      object (
        ("session", session_json session)
        ∷ ("target", target)
        ∷ ("capabilities", capabilities_json capabilities)
        ∷ ("state", observed)
        ∷ []))
