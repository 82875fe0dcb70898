-- ===== src/Session.antt =====
-- include/fix/core/Session.hpp and src/Session.cpp: one FIX session, as the handlers that run on its
-- strand. The children: State (the fields), Io (the write queue, timers), Send (admin messages),
-- Handlers (admin messages received), Dispatch (a message received), Lifecycle (start, stop, loss
-- of the connection, timers that fire).
pub mod State
pub mod Io
pub mod Send
pub mod Handlers
pub mod Dispatch
pub mod Lifecycle
pub mod Events
pub mod Stopped
pub mod Soundness
pub mod Recovery
pub mod Queue
pub mod Connection
pub mod History
mod Tests
