-- ===== src/Auth.antt =====
-- The package auth: requests signed with an access key and its secret key, their verification, and
-- the middleware that admits only verified requests.
pub mod Errors
pub mod Stores
pub mod MemoryStore
pub mod MemoryNonceStore
pub mod Actions
pub mod Signing
pub mod Header
pub mod Verifier
pub mod Accepted
pub mod Timestamps
pub mod Replay
pub mod HeaderRoundTrip
pub mod Signed
pub mod RoundTrip
pub mod Middleware
pub mod Admission
pub mod Gate
pub mod Authentic
