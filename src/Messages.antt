-- ===== src/Messages.antt =====
-- The protobuf messages of upsf/protos/wt474_upsf_messages/v1/messages_v1.proto, as the generated
-- accessors show them: a singular message field that is unset reads as the default message, an
-- `int32` and an open `enum` as the integer they hold, a `oneof` as one of its members or `unset`,
-- and a `map` as the list of its entries in the order in which an iteration visits them.
mod Common
mod Connection
mod Gateway
mod Shards
mod Session
pub use Common.*
pub use Connection.*
pub use Gateway.*
pub use Shards.*
pub use Session.*
