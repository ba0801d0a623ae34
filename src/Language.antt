-- ===== src/Language.antt =====
-- language.c: conversions between UTF-8 and UTF-16, and between bytes and hexadecimal digits.
pub mod Bits
pub mod Widths
pub mod Copies
pub mod Transcode
pub mod Lengths
pub mod Bounds
pub mod RoundTrip
pub mod Texts
pub mod Hex
pub mod HexTrip
mod Tests
