-- ===== src/Client.antt =====
-- libsace/SaceManager.cpp, libsace/SaceObj.cpp and libsace/include/sace/SaceObj.h: what a client
-- holds of its commands and services, and what it asks of the daemon.
pub mod Calls
pub mod Objects
pub mod Manager
pub mod Requests
pub mod Info
pub mod Bounds
pub mod Known
pub mod Responses
pub mod Daemon
pub mod Ending
pub mod Lifetime
mod Tests
