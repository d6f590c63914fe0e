-- ===== src/Shell.antt =====
-- kernel/Console/Shell.c, a file for each part of it.
pub mod Tokens
pub mod Handlers
pub mod Info
pub mod Dispatch
