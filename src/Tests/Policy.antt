-- ===== src/Tests/Policy.antt =====
-- The checks of the policy at a session of each kind. The path functions take paths as they are.
use emacs_llvm.Base.{
  ◌≡◌, ◌≢◌, ◌↔◌, refl, String, Bool, true, false, none, some, str_eq, if◌then◌else◌,
}
use emacs_llvm.Base.Bytes.{strip_prefix}
use emacs_llvm.Base.Json.{end}
use emacs_llvm.Protocol.Errors.{ok}
use emacs_llvm.Sessions.{EmacsSession, semantic, native_keys}
use emacs_llvm.Policy.{profile, assert_mutation, assert_channel, within, assert_file_path}
use emacs_llvm.Policy.Rights.{assert_channel_iff}

abbrev session : EmacsSession
session = record {
  session_id = "ses_1";
  instance_id = "emacs_1";
  default_channel = semantic;
  permission_profile = "workspace_edit";
  target = record {
    frame_id = none;
    frame_title = none;
    native_window_identifier = none;
    window_id = none;
    buffer_id = some "buf_1";
    project_root = some "/p";
    file = none;
  };
  capabilities = record { channels = λ c. true; features = end };
  state_seq_at_open = 0;
  created_at = 0;
  last_used_at = 0;
  lease_owner = "mcp-client";
}

-- A lookup by hand of the few paths below.
abbrev relative_to : String → String → String
relative_to root file = if str_eq file "/p/a.el" then "a.el" else "../b.el"

abbrev same : String → String
same path = path

abbrev never : String → Bool
never path = false

policy : Unit {0}
unfolding assert_file_path within profile assert_mutation strip_prefix
policy = tt

may_edit : assert_mutation session ≡ ok tt
unfolding policy
may_edit = refl

inside : assert_file_path same relative_to never session "/p/a.el" ≡ ok tt
unfolding policy
inside = refl

outside : assert_file_path same relative_to never session "/b.el" ≢ ok tt
unfolding policy
outside = λ h. cc

assert_channel_iff_example : (assert_channel session native_keys ≡ ok tt) ↔ (
    (session.capabilities.channels native_keys ≡ true)
    × (native_keys ≡ native_keys → session.permission_profile ≡ "trusted_local"))
assert_channel_iff_example = assert_channel_iff session native_keys
