-- ===== src/Accounts.antt =====
-- internal/services and internal/adapters/db: accounts, memberships, web sessions and tokens.
pub mod Database
pub mod Repos
pub mod Outside
pub mod Members
pub mod TokenService
pub mod AuthService
pub mod SessionSoundness
pub mod Service
