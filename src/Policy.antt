-- ===== src/Policy.antt =====
-- packages/mcp-server/src/policy/policyEngine.ts: what a session may do, by its permission profile.
-- The functions of `node:path` that it calls are parameters. A name that the object of profiles
-- inherits from `Object.prototype` is not treated apart from other unknown names.
pub mod Rights
use Prim.Native.String
use emacs_llvm.Base.{
  String, Bool, true, false, ◌&&◌, ◌||◌, not, Option, none, some, if◌then◌else◌, str_eq,
}
use emacs_llvm.Base.Bytes.{codes, strip_prefix}
use emacs_llvm.Base.Json.{str, field, end}
use emacs_llvm.Protocol.Errors.{Result, ok, err, throw, ensure, ◌>>=◌, ◌>>◌, policy_denied}
use emacs_llvm.Sessions.{EmacsSession, ExecutionChannel, semantic, internal_keys, native_keys}

pub record PermissionProfile : Type 0 where
  pub name : String
  pub mutations : Bool
  pub native_keys_allowed : Bool
  pub native_capture : Bool
  pub arbitrary_elisp : Bool
  pub structured_eval : Bool
  pub save_outside_workspace : Bool

abbrev pub read_only : PermissionProfile
read_only = record {
  name = "read_only";
  mutations = false;
  native_keys_allowed = false;
  native_capture = false;
  arbitrary_elisp = false;
  structured_eval = false;
  save_outside_workspace = false;
}

abbrev pub workspace_edit : PermissionProfile
workspace_edit = record {
  name = "workspace_edit";
  mutations = true;
  native_keys_allowed = false;
  native_capture = false;
  arbitrary_elisp = false;
  structured_eval = false;
  save_outside_workspace = false;
}

abbrev pub trusted_local : PermissionProfile
trusted_local = record {
  name = "trusted_local";
  mutations = true;
  native_keys_allowed = true;
  native_capture = true;
  arbitrary_elisp = false;
  structured_eval = true;
  save_outside_workspace = true;
}

unfoldable pub profile : String → Result PermissionProfile
profile name =
    if str_eq name "read_only"
    then ok read_only
    else if str_eq name "workspace_edit"
    then ok workspace_edit
    else if str_eq name "trusted_local"
    then ok trusted_local
    else throw policy_denied (String.◌++◌ "Unknown permission profile: " (String.◌++◌ name "."))
        none

unfoldable pub assert_mutation : EmacsSession → Result (Unit {0})
assert_mutation session = do
  p ← profile session.permission_profile
  ensure p.mutations policy_denied
      (String.◌++◌ "Permission profile " (String.◌++◌ session.permission_profile " is read-only."))
      none

abbrev pub channel_name : ExecutionChannel → String
channel_name semantic = "semantic"
channel_name internal_keys = "internal_keys"
channel_name native_keys = "native_keys"

-- The second test of `assertChannel`, which asks for the profile of native keys only.
authorized : EmacsSession → ExecutionChannel → Result (Unit {0})
authorized session native_keys = do
  p ← profile session.permission_profile
  ensure p.native_keys_allowed policy_denied
      "Native key injection is not authorized by this permission profile." none
authorized session _ = ok tt

unfoldable pub assert_channel : EmacsSession → ExecutionChannel → Result (Unit {0})
unfolding authorized
assert_channel session channel = do
  ensure (session.capabilities.channels channel) policy_denied
      (String.◌++◌ "Execution channel "
        (String.◌++◌ (channel_name channel) " is unavailable for this session."))
      none
  authorized session channel

unfoldable pub assert_capture : EmacsSession → Result (Unit {0})
assert_capture session = do
  p ← profile session.permission_profile
  ensure p.native_capture policy_denied
      "Screen capture requires the trusted_local permission profile." none

unfoldable pub assert_arbitrary_elisp : EmacsSession → Result (Unit {0})
assert_arbitrary_elisp session = do
  p ← profile session.permission_profile
  ensure p.arbitrary_elisp policy_denied "Arbitrary Emacs Lisp evaluation is disabled by policy."
      none

unfoldable pub assert_structured_eval : EmacsSession → Result (Unit {0})
assert_structured_eval session = do
  p ← profile session.permission_profile
  ensure p.structured_eval policy_denied
      "Structured language evaluation requires the trusted_local permission profile." none

-- `relative.startsWith("..")`
abbrev pub goes_up : String → Bool
goes_up relative = elim (strip_prefix (codes "..") (codes relative)) [
  | none ↦ false
  | some r ↦ true
]

-- The root that `if (!root)` lets pass.
abbrev pub usable : Option String → Option String
usable none = none
usable (some root) = if str_eq root "" then none else some root

module _ (resolve : String → String) (relative_to : String → String → String)
    (is_absolute : String → Bool) where
  abbrev pub is_inside : String → String → Bool
  is_inside root file =
      let relative = relative_to (resolve root) (resolve file) in
      str_eq relative "" || (not (goes_up relative) && not (is_absolute relative))

  unfoldable pub within : Option String → String → Result (Unit {0})
  within none file =
      throw policy_denied "No workspace/project root is associated with this session." none
  within (some root) file =
      ensure (is_inside root file) policy_denied
        "File mutation is outside the authorized workspace."
        (some (field "project_root" (str (resolve root)) (field "file" (str (resolve file)) end)))

  unfoldable pub assert_file_path : EmacsSession → String → Result (Unit {0})
  unfolding within
  assert_file_path session file = do
    p ← profile session.permission_profile
    if p.save_outside_workspace then ok tt else within (usable session.target.project_root) file
