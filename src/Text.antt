-- ===== src/Text.antt =====
-- What the sources use of Go's packages strings and unicode, over a text's code points.
mod Defs
mod Laws
mod Search
mod Bytes
mod Split
unfoldable pub use Defs.*
unfoldable pub use Search.*
unfoldable pub use Bytes.*
unfoldable pub use Split.*
pub use Laws.*
