-- ===== src/RoundTrip.antt =====
-- What a message keeps on its way into a structure of upsf/upsf.h and back: `normalise_...` says it
-- without the structures, and the theorems of the child modules that the code does just that.
pub mod Endpoint
pub mod Strings
pub mod Gateway
pub mod Session
pub mod Shard
pub mod NcSpec
pub mod Connection
pub mod Maps
pub mod Exact
pub mod Stable
