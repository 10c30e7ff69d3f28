-- ===== src/Canon/RoundTrip.antt =====
-- canon/canon.go: what Encode writes, Parse reads back.
pub mod Strings
pub mod Loops
pub mod Values
pub mod Documents
pub mod Signing
