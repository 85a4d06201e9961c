-- ===== src/Reader.antt =====
-- saced/SaceReader.h and saced/SaceReader.cpp: the clients of the socket and of the binder, and the
-- messages that are made of their commands.
pub mod Sockets
pub mod Binder
pub mod Monitor
pub mod Table
pub mod Walk
pub mod Rounds
pub mod Delivery
mod Tests
