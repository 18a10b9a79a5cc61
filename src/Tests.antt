-- ===== src/Tests.antt =====
-- Runs of the model at fixed inputs, and each theorem at an input where its hypotheses hold.
mod Framing
mod Idempotency
mod Tickets
mod Sessions
mod Lisp
mod Rename
mod Create
mod BridgeClient
mod Diff
mod Policy
mod Symbols
mod Keys
mod Server
mod Router
