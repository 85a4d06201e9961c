-- ===== src/Objects.antt =====
-- The classes of libsace/SaceTypes.h as objects in memory: their constructors, copies and
-- assignments, and the numbers that commands get.
pub mod Commands
pub mod Answers
pub mod Copying
pub mod Numbers
mod Tests
