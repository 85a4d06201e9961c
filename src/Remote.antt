-- ===== src/Remote.antt =====
-- libsace/ISaceManager.cpp and libsace/ISaceListener.cpp, the two interfaces that a client and the
-- daemon call each other through, and class SaceBinderSender of libsace/SaceSender.cpp.
pub mod Binder
pub mod Proxies
pub mod Stubs
pub mod Calls
pub mod Sender
pub mod Session
pub mod Daemon
mod Tests
