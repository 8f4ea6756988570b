-- ===== src/Proto.antt =====
-- crates/proto/src/lib.rs: the wire protocol between the agents. Types in Proto/Types.antt, what is
-- written in Proto/Encode.antt, what is read in Proto/Decode.antt, and their theorems in the rest.
mod Types
mod Encode
mod Decode
pub mod Wire
pub mod RoundTrip
pub mod Soundness
pub mod Datagrams
pub mod Exchange
unfoldable pub use Types.*
unfoldable pub use Encode.*
unfoldable pub use Decode.*
