-- ===== src/UriRule.antt =====
-- urirule/urirule.go: which URIs are published or followed.
pub mod Host
pub mod Check
pub mod Address
mod Tests
