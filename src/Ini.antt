-- ===== src/Ini.antt =====
-- The event file in saced/SaceEvent.cpp: `trim_space_char`, `next_token`, `parse_service_attr` and
-- `parse_event_from_ini`.
pub mod Lexing
pub mod Attributes
pub mod Names
pub mod Sections
pub mod File
pub mod Whole
pub mod Paired
pub mod Boot
pub mod Lines
mod Tests
