-- ===== src/Domain.antt =====
-- internal/domain: the types and rules that every other part shares.
pub mod Pairing
pub mod LiveSession
pub mod Roles
pub mod Access
