-- ===== src/Accounts/Repos.antt =====
-- internal/adapters/db: the statements of the account, membership and token repositories. Logging is
-- left out, and so are the times that the database keeps of each row.
pub mod Users
pub mod Memberships
pub mod Tokens
pub mod Supers
pub mod Kept
