-- ===== src/Libc.antt =====
-- The C library as the two programs use it: byte strings, `snprintf` of the conversions that occur,
-- and the decimal conversions. A C string is the list of its bytes, without the final NUL.
pub mod Strings
pub mod Decimal
pub mod RoundTrip
pub mod Scan
pub mod Appends
pub mod Hex
unfoldable pub use Strings.*
unfoldable pub use Decimal.*
unfoldable pub use Scan.*
unfoldable pub use Appends.*
