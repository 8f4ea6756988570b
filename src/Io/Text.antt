-- ===== src/Io/Text.antt =====
-- Text literals as bytes, decimal digits, and UTF-8 (Io/Text/Defs.antt) with its laws
-- (Io/Text/Laws.antt); the test for blank text is in Io/Text/Blank.antt.
mod Defs
mod Laws
pub mod Blank
unfoldable pub use Defs.*
pub use Laws.*
