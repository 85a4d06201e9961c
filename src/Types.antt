-- ===== src/Types.antt =====
-- The data of libsace/SaceTypes.h, libsace/include/sace/SaceServiceInfo.h, saced/SaceMessage.h and
-- saced/SaceWriter.h: enumerations, records, and the bytes that results carry.
mod Enums
mod Bytes
mod Records
unfoldable pub use Enums.*
unfoldable pub use Bytes.*
unfoldable pub use Records.*
