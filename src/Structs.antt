-- ===== src/Structs.antt =====
-- The C structures of upsf/upsf.h, and the values that memset leaves in them.
mod Common
mod Connection
mod Gateway
mod Shard
mod Session
unfoldable pub use Common.*
unfoldable pub use Connection.*
unfoldable pub use Gateway.*
unfoldable pub use Shard.*
unfoldable pub use Session.*
