-- ===== src/Wire.antt =====
-- The parcel form of the classes of libsace/SaceTypes.cpp and libsace/SaceParams.cpp: commands,
-- parameters, results and responses as they are written and read. The parcel is a parameter.
pub mod Parcel
pub mod Codes
pub mod Params
pub mod Command
pub mod Result
pub mod Listed
mod Tests
