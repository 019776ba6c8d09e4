-- ===== src/Command.antt =====
-- The commands that start and stop a writing job, src/CommandSystem/: their parsing, the listener and
-- the handler.
pub mod Parser
pub mod Listener
pub mod Handler
mod Examples
