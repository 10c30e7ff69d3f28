-- ===== src/Canon.antt =====
-- canon/canon.go: the canonical JSON encoding. `Value` has the data, `Decode` the strict parser,
-- `Encode` the writer; the other modules prove what they do.
pub mod Value
pub mod Decode
pub mod Encode
pub mod RoundTrip
mod Tests
