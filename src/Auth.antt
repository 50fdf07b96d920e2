-- ===== src/Auth.antt =====
-- internal/core/auth: the token store, the verifier and the bearer check.
pub mod Store
pub mod Labels
pub mod Save
pub mod Expiry
pub mod Verifier
pub mod Bearer
pub mod Minted
pub mod Admission
pub mod Middleware
pub mod Blind
mod Tests
