-- ===== src/Router/Workflow.antt =====
-- packages/mcp-server/src/tools/toolRouter.ts: the semantic workflows. A workflow is a sequence of
-- steps, each of them a call of another tool.
pub mod Answers
pub mod Requests
pub mod Steps
pub mod Endings
pub mod Lisp
pub mod Rename
pub mod Structure
pub mod Extract
pub mod Org
pub mod Section
pub mod Build
pub mod Choice
pub mod Server
