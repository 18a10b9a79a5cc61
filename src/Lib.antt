-- ===== src/Lib.antt =====
-- Emacs Operator: a server that lets an agent work in running Emacs processes by tools of the
-- Model Context Protocol. The tool router of the server (packages/mcp-server/src/tools) opens
-- sessions in the session manager, asks the policy engine whether the session's permission
-- profile allows the call, takes the mutation lease of an instance before it changes anything,
-- answers a request that is sent again from the idempotency cache, and hands out tickets for
-- rerunning a verification. It speaks with Emacs in frames of a byte stream, by a client that
-- keeps the requests that wait for an answer (packages/bridge-client/src). Texts are changed by
-- unified diffs (packages/protocol/src) and by rename plans over a scanner of Lisp text
-- (packages/refactor-intelligence/src).
--
-- Which file models which part:
--
--   Base: names of the library that all files share, tests on numbers, lists over the native
--     numbers, texts as lists of bytes or code units, and JSON values.
--   Base/Map: the JavaScript `Map`, in insertion order. Base/Evict: the loop that drops oldest
--     entries, which the cache and the tickets share.
--   Base/Values: what the language does with values: objects, members, and comparing and
--     rounding numbers.
--   Base/Exec: methods that change an object and may throw; Exec/Keeps has the rules by which
--     such a method keeps an invariant.
--   Protocol/Errors: packages/protocol/src/errors.ts. `code_name` and `defaults` are
--     `ERROR_CODES` and `defaults`, `operator_error` is the constructor; `Result` is code that may
--     throw one.
--   Protocol/Diff: packages/protocol/src/unifiedDiff.ts. `parse_hunks` and
--     `apply_unified_diff` are `parseHunks` and `applyUnifiedDiff`; Hunks and Outcome describe
--     independently what a patch asks of the original and what it gives.
--   Protocol/Keys: packages/protocol/src/keys.ts. `validate_internal_key_steps` and
--     `validate_canonical_key_event`; Steps says which arrays are accepted.
--   Protocol/Validation, Protocol/Envelope: packages/protocol/src/validation.ts and
--     envelope.ts, what tools ask of their arguments and what a call returns.
--   Framing: packages/bridge-client/src/framing.ts. `push` and `encode_content_length_frame`;
--     Heads is about one header, Chunks about a stream that is cut anywhere, Frames about reading
--     back what was written.
--   BridgeClient: packages/bridge-client/src/client.ts. Each method, and each handler of the
--     socket and of the timers, is a function under its name (`on_data` is `onData`, `on_timeout`
--     the callback of `setTimeout`); the parent has the state and the handlers but one, Requests
--     has `request` and `initialize`, Messages has `onData`; `request` ends where the promise is
--     made, and `initialized_by` is what `initialize` does when its promise is resolved. Accounts
--     has the invariant, Histories any sequence of events, Outcomes what an answer says to its
--     request, Answers single answers and the end of a connection, Cuts a stream that is cut
--     anywhere. `forgotten` of the state has the requests whose answer threw after they were taken
--     off the map.
--   Idempotency: packages/mcp-server/src/idempotency.ts. `lookup` and `store` are `get` and
--     `set`; Laws is about one operation, Replay about a sequence of them.
--   Tickets: packages/mcp-server/src/verificationTickets.ts. `create`, `access`, `append` and
--     `close` are `create`, `get`, `append` and `close`.
--   Sessions: packages/mcp-server/src/sessions/sessionManager.ts with the session types of
--     packages/protocol/src/types.ts. `open_session`, `get_session`, `update_target`,
--     `acquire_mutation`, `close` and `list_sessions` are the public methods. Invariant, Lifetime,
--     Leases and Listing are about single calls, History about any sequence of them, as a step
--     relation.
--   Policy: packages/mcp-server/src/policy/policyEngine.ts. `profile` and the checks, each
--     under its own name; Rights says which sessions pass them.
--   Lisp: packages/refactor-intelligence/src/scanner.ts. Scanner takes one piece off the text,
--     Tokens is `scanLisp`, Balance is `checkLispBalance`, Occurrences is `symbolOccurrences`;
--     Slices says where tokens lie, Balance/Dyck has the grammar of balanced brackets.
--   Lisp/Symbols: packages/refactor-intelligence/src/symbol-semantics.ts.
--     `describe_lisp_symbol` and, in Symbols/Rename, `prepare_symbol_rename`; Safety says what a
--     prepared rename guarantees.
--   Rename: packages/refactor-intelligence/src/rename-plan.ts. `edits_for`,
--     `validate_rename_plan`, `apply_edits` and `apply_rename_plan_to_map`; Forward, Planned and
--     Files are about these. Create is `createProjectRenamePlan`, with Steps, Totals, Bounds and
--     Applied about it, Disk is `applyRenamePlanToFilesystem`, with Prepared about its preflight,
--     Unwritten about its failures and Written about its success.
--   Router: packages/mcp-server/src/tools/toolRouter.ts. State has the server's state and its
--     calls of the other parts, Arguments the functions in front of the class, Call is `call` with
--     `auditEntry`, Dispatch is `dispatch`, and Reads, Windows, NativeKeys, Mutations, Renames,
--     Edits, Verify and Open have the tools, one function each, under their names
--     (Mutations/Evaluation has the first of those that change something, Verify/Attempts the
--     first actions of a verification). Registry is packages/mcp-server/src/bridgeRegistry.ts.
--     Workflow has the semantic workflows: Steps is what they share, Endings says how one ends,
--     Answers and Requests read answers and arguments, Lisp, Rename, Structure, Extract, Org and
--     Build have one function for each workflow, under its name (Section has what Build puts into
--     a buffer), Choice is `executeSemanticWorkflow`, and Server closes the circle, as a
--     workflow's steps are calls. Safety says for whom requests leave the server: its children
--     follow every tool and workflow.
--   Tests: runs at fixed inputs, and each theorem at an input where its hypotheses hold.
--     Server is the server that the runs of the router start from.
--
-- Conventions. An object that is changed in place is a record that an operation takes and
-- returns, also where the operation throws. A reading of the clock is an argument, in the order
-- of the readings, in milliseconds and a natural number; a difference of two readings stops at 0,
-- which changes no comparison with a time to live, since that is positive. The identifier that
-- `crypto.randomUUID` makes is an argument. A time stamp is kept as its number of milliseconds.
--
-- Code that is not in the repository is a parameter: `number` is `Number` at a text, where that
-- is a safe integer that is not negative, and `sha256` is the hash of the runtime; `resolve`,
-- `relative_to` and `is_absolute` are functions of `node:path`, `upper` is `toUpperCase`,
-- `string_of` is `String`, and so is `string` of the bridge client, which may throw; `parse` and
-- `stringify` are those of JSON, and the records `Host` and `Disk` of a rename say what its
-- members stand for; a file of a disk is its bytes, and reading and writing UTF-8 are two of
-- these members. The router takes a `World`: the answers of Emacs, of the driver and of the
-- capture file, which may depend on all that was sent before, the instances that are found, the
-- clock and the random identifiers by the number of the reading, and functions of the runtime;
-- nothing is supposed of them. Beside what the theorems on a disk suppose of its members, the one
-- hypothesis on parameters is that `Number` reads the decimal numbers up to the limit of a frame,
-- which the tests take a concrete reader for.
--
-- Loops that are not structural run on fuel. `push` gives one more than the length of the buffer,
-- and each round takes four bytes at least off it; the scanner gives one more than the length of
-- the text, and each round takes at least one code unit; `evict` gives one more than the number
-- of entries, and each round drops one. The depth of workflows in workflows is 1 in
-- `server_call`, as no step of a workflow calls the tool `emacs_workflow`.
--
-- Left out of the model: the details that two errors of the diff carry, and the texts put into
-- the messages of its errors and of those of the rename; of a diagnostic of the scanner all but
-- its code and its offset; the messages and details of the errors of a symbol's rename; the index
-- of a key step in the messages about it; `canonical`, the JSON text of a rename plan's body that
-- the plan's identifier is the hash of, which is a parameter; the details of an answer's error
-- that are no object; that `String` can throw, everywhere but in the bridge client; the bytes of
-- a temporary file that could not be written whole; and what other processes do to the files of a
-- plan meanwhile. Of the router: an answer that should be an object and is none has no members,
-- the errors of the runtime have one fixed message, a name that an object inherits is not a
-- member of it, JSON has no NaN, the members of an object stand in the order of `Object.entries`,
-- the refusal of a rename carries no message and no descriptors, the target that Emacs resolves
-- is used at its type, and a write to the audit file does not fail. Not modelled: the discovery
-- of instances, the analyses of forms, the rerun of verifications outside the server, the wire
-- server of the protocol's transport, and the benchmark, which the modelled parts do not call;
-- and what is input and output: sockets, processes, files, the platform hosts, and the Emacs Lisp
-- side.
pub mod Base
pub mod Protocol
pub mod Idempotency
pub mod Tickets
pub mod Sessions
pub mod Framing
pub mod BridgeClient
pub mod Policy
pub mod Lisp
pub mod Rename
pub mod Router
mod Tests
