-- ===== src/Normal.antt =====
-- `class SaceNormalExcutor` of saced/SaceExcutor.h and saced/SaceExcutor.cpp, with `sace_popen` and
-- `sace_pclose` in `Popen`: commands that run on a pipe until their client closes them.
pub mod Popen
pub mod Child
pub mod Handlers
pub mod Invariant
pub mod Closing
mod Tests
