-- ===== src/Protocol.antt =====
-- packages/protocol/src: the vocabulary that the server, the bridge client and the tools share.
pub mod Errors
pub mod Diff
pub mod Keys
pub mod Validation
pub mod Envelope
