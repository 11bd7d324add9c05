-- ===== src/Search.antt =====
-- The search language of the log viewer: pkg/search, internal/domain/search.go and
-- internal/domain/search_query.go. Text is a list of bytes.
pub mod Filter
pub mod Toggles
pub mod Printer
pub mod Lexer
pub mod Fields
pub mod Parser
pub mod Rounds
pub mod Ends
pub mod Quoting
pub mod Chains
pub mod Sorting
pub mod Sections
pub mod FreeText
pub mod Printable
pub mod Steps
pub mod RoundTrip
pub mod Updates
pub mod Kept
pub mod Clicks
pub mod Cycle
pub mod Orderless
pub mod Refused
pub mod Words
pub mod Prefixes
