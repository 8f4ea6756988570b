-- ===== src/Io/Reader.antt =====
-- The input side of a stream: the operations as a parameter with their documented behaviour
-- (Io/Reader/Defs.antt), and rules for code that reads (Io/Reader/Rules.antt).
mod Defs
mod Rules
pub use Defs.{Reader, IsReader, eof}
pub use Rules.*
