-- ===== src/Tests/Server.antt =====
-- A server of the tool router: one Emacs, one session, answers that are always the same.
use Prim.Native.String
use emacs_llvm.Base.{ℕ, zero, suc, String, if◌then◌else◌, str_eq, true, false, none, some, [], ◌∷◌}
use emacs_llvm.Base.Json.{Json, null, bool, str, Fields, end}
use emacs_llvm.Base.Values.{object}
use emacs_llvm.Base.Exec.{pure}
use emacs_llvm.Protocol.Errors.{ok}
use emacs_llvm.Sessions.{
  semantic, Nullable, ResolvedTarget, EmacsSession, SessionOpenInput, SessionManager, open_session,
}
use emacs_llvm.Router.State.{InstanceRecord, Discovered, World, Server, Tool}
use emacs_llvm.Router.Call.{fresh}

abbrev pub target : ResolvedTarget
target = record {
  frame_id = none;
  frame_title = Nullable.null;
  native_window_identifier = Nullable.absent;
  window_id = some "w";
  buffer_id = "b";
  buffer_name = "x.el";
  file = Nullable.null;
  project_root = Nullable.given "/w";
  major_mode = "emacs-lisp-mode";
}

abbrev pub input : SessionOpenInput
input = record {
  instance_id = "emacs";
  default_channel = semantic;
  permission_profile = "workspace_edit";
  target = target;
  capabilities = record { channels = λ c. true; features = end };
  state_seq_at_open = 0;
  lease_owner = none;
}

abbrev pub emacs : InstanceRecord
emacs = record { instance_id = "emacs"; pid = 7; port = 9 }

abbrev pub found : Discovered
found = record { instance = emacs; body = end; stale = false; process_alive = null }

abbrev pub gone : Discovered
gone = record found { stale = true }

-- What this Emacs says to a request.
abbrev pub reply : String → Json
reply method =
    if str_eq method "checkpoint.create"
    then object (("checkpoint_id", str "c") ∷ [])
    else if str_eq method "adapter.validate"
    then object (("validations", object (("lisp", object (("valid", bool true) ∷ [])) ∷ [])) ∷ [])
    else object []

unfoldable pub uuids : ℕ → String
uuids zero = "u"
uuids (suc n) = String.◌++◌ "u" (uuids n)

abbrev pub world : World
world = record {
  answer = λ before sent. ok (reply sent.method);
  discover = λ before. gone ∷ found ∷ [];
  handshake = λ before r. ok (object []);
  clock = λ n. 0;
  uuid = uuids;
  consume_png = λ before v. ok end;
  resolve = λ path. path;
  relative_to = λ root path. path;
  is_absolute = λ path. false;
  upper = λ t. t;
  string_from = λ t. "";
  text_of = λ v. "";
  byte_length = λ s. 0;
  target_of = λ v. target;
  version = "0";
}

abbrev pub empty : SessionManager
empty = record { ttl_ms = 100; sessions = []; mutation_owners = [] }

-- The session `ses_a` has been opened.
abbrev pub server : Server
server = record {
  world = world;
  sessions = (open_session input "a" 0 empty).1;
  cache = record { ttl_ms = 100; max_entries = 8; values = [] };
  tickets = record { ttl_ms = 100; max_tickets = 8; tickets = [] };
  clients = [];
  audit = [];
  sent = [];
  hooks = fresh;
  readings = 0;
  drawn = 0;
}

abbrev pub no_workflow : Fields → EmacsSession → Tool Json
no_workflow args e = pure null

abbrev pub edit : Json
edit = object (
    ("session_id", str "ses_a")
    ∷ ("operation", str "insert")
    ∷ ("text", str "x")
    ∷ ("request_id", str "r")
    ∷ [])

-- A form is to be inserted, checked and kept.
abbrev pub repair : Json
repair = object (
    ("session_id", str "ses_a")
    ∷ ("operation", str "repair_lisp")
    ∷ ("edit", object (("operation", str "insert") ∷ ("text", str "(f)") ∷ []))
    ∷ [])
