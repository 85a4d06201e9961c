-- ===== src/Dispatch.antt =====
-- saced/SaceCommandDispatcher.cpp and class SaceExcutor of saced/SaceExcutor.cpp: the way of a
-- message from the reader to an executor's thread.
pub mod Queue
pub mod Progress
pub mod Routing
pub mod Shutdown
pub mod Setup
mod Tests
