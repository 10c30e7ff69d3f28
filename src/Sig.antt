-- ===== src/Sig.antt =====
-- sig/sig.go: keys, digests and Ed25519 signatures over canonical bytes; `Time` has its timestamps.
pub mod Hex
pub mod Base64
pub mod Sign
pub mod RoundTrip
pub mod Time
mod Tests
