-- ===== src/Events.antt =====
-- `class SaceEvent` of saced/SaceEvent.h and saced/SaceEvent.cpp: events, their triggers, and the
-- services that they start. `State` has the object and its pointers, `Saving` the event file,
-- `Handlers` the messages of clients, `Monitor` the event thread; the other modules prove.
pub mod State
pub mod Saving
pub mod AttributeLines
pub mod Written
pub mod Restored
pub mod Pipe
pub mod Losing
pub mod Loading
pub mod Booting
pub mod Handlers
pub mod Monitor
pub mod Saved
pub mod Requests
pub mod Registry
pub mod Refinement
pub mod Tracking
pub mod Stopping
pub mod Ending
mod FileTests
mod RestoreTests
mod PipeTests
mod Tests
