-- ===== src/Keys.antt =====
-- src/keys: the users' keys of model providers.
pub mod Probe
pub mod Store
pub mod Accepted
pub mod RoundTrip
pub mod Crypto
pub mod Sealed
pub mod Unique
pub mod Moved
pub mod Merged
