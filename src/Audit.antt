-- ===== src/Audit.antt =====
-- audit/: the boundary objects of the audit profile, the signed status list, and the relying client.
pub mod Strict
pub mod Fields
pub mod Terms
pub mod Manifest
pub mod Orders
pub mod Offers
pub mod Attestation
pub mod Replies
pub mod Status
pub mod Decision
pub mod Verify
pub mod Reliance
pub mod Decisions
pub mod Epochs
pub mod Artifacts
pub mod Entries
pub mod Finality
pub mod Signatures
pub mod Matching
pub mod Opinions
pub mod Tests
pub mod Build
