-- ===== src/WellFormed.antt =====
-- The structures of upsf/upsf.h that upsf/upsf_c_mapping.cpp may read: every string is terminated
-- inside its buffer, every size is within its array, and every union was written as its type says.
-- The child modules prove that the maps from messages make such structures, and that the maps to
-- messages read nothing undefined in one, be it made by the library or by its caller.
pub mod Arrays
pub mod Endpoint
pub mod Gateway
pub mod Connection
pub mod Session
pub mod Shard
