-- ===== src/Sender.antt =====
-- `SaceSocketSender::excuteCommand`, `handleResult` and `handleResponse` of libsace/SaceSender.cpp:
-- the hand-over of a result from the receiving thread to the client's.
pub mod Steps
pub mod Handover
pub mod Arrival
pub mod Setup
mod Tests
