-- ===== src/Service.antt =====
-- `class SaceServiceExcutor` of saced/SaceExcutor.h and saced/SaceExcutor.cpp: the services that
-- the daemon runs. `State` has the object and its pointers, `Monitor` the reaping of ended
-- processes, `Handlers` the commands; the other modules prove.
pub mod State
pub mod Monitor
pub mod Handlers
pub mod Excute
pub mod Invariant
pub mod Scanning
pub mod Collecting
pub mod Reaping
pub mod Handling
pub mod Transitions
pub mod Following
pub mod Dangling
pub mod Message
pub mod Lifecycle
mod Tests
