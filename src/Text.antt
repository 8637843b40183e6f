-- ===== src/Text.antt =====
-- Rust strings and the operations of the standard library that the code calls on them. A string is
-- the list of its characters (code points); `as_bytes` is its UTF-8 form.
mod Base
mod Decimal
mod Split
mod Trim
mod Hex
mod Lines
pub mod Words
unfoldable pub use Base.*
unfoldable pub use Decimal.*
unfoldable pub use Split.*
unfoldable pub use Trim.*
unfoldable pub use Hex.*
unfoldable pub use Lines.*
