-- ===== src/Io.antt =====
-- `std::io`: error kinds, errors and results, text as UTF-8 bytes, and the actions that thread the
-- state of a stream. The streams themselves are parameters (Io/Reader.antt, Io/Writer.antt).
pub mod Text
pub mod Reader
pub mod Writer
pub mod Cursor
pub mod Source
pub mod Sink
pub mod Transfer
pub mod Memory
mod Defs
unfoldable pub use Defs.*
