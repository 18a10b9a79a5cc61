-- ===== src/Router.antt =====
-- packages/mcp-server/src/tools/toolRouter.ts: the tools of the server, over its other parts.
pub mod State
pub mod Arguments
pub mod Registry
pub mod Windows
pub mod Reads
pub mod Renames
pub mod NativeKeys
pub mod Mutations
pub mod Edits
pub mod Verify
pub mod Open
pub mod Dispatch
pub mod Call
pub mod Workflow
pub mod Safety
