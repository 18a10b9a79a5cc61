-- ===== src/Lisp.antt =====
-- packages/refactor-intelligence/src: what the server knows of Lisp text without a Lisp reader.
pub mod Scanner
pub mod Tokens
pub mod Slices
pub mod Balance
pub mod Symbols
pub mod Occurrences
