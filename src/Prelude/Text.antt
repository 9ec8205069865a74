-- ===== src/Prelude/Text.antt =====
-- What plugin/*.go uses of Go's strconv and strings packages. A Go string that is valid UTF-8 is a
-- `String`; the ASCII characters that these functions look for are single bytes in it.
pub mod Decimal
pub mod Trim
pub mod FilePath
pub mod Json
pub mod Utf8
