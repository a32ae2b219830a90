-- ===== src/Mapping.antt =====
-- UpsfMapping::map of upsf/upsf_c_mapping.cpp. `..._to_c` is the overload from a message to a
-- structure of upsf/upsf.h, `..._to_proto` the one from a structure to a message. The former begin
-- with memset, so what they return does not depend on the target. The latter change the message that
-- they are given, and have no result where a read is undefined. The Boolean result is modelled where
-- it can be false.
pub mod Endpoint
pub mod Gateway
pub mod NcSpec
pub mod Connection
pub mod Shard
pub mod Session
