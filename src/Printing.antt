-- ===== src/Printing.antt =====
-- upsf/upsf_stream.hpp: the text of each message, as it is written to a stream, and the upsf_dump
-- functions of upsf/upsf_c_wrapper.cpp. A text is undefined where the name of an enumerator is.
pub mod Common
pub mod Connection
pub mod Gateway
pub mod Shard
pub mod Session
pub mod Plain
pub mod Items
pub mod Dump
pub mod Exports
