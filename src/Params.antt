-- ===== src/Params.antt =====
-- libsace/SaceParams.cpp, libsace/include/sace/SaceParams.h, and the child's use of the parameters
-- in saced/SaceExcutor.cpp: triggers, the parsing of a client's parameters, credentials.
pub mod Triggers
pub mod Parsing
pub mod Child
pub mod Capabilities
pub mod Setters
mod Tests
