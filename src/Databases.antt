-- ===== src/Databases.antt =====
-- internal/databases/databases.go.
pub mod State
pub mod Monad
pub mod Perms
pub mod Config
pub mod Articles
pub mod Groups
pub mod Peers
pub mod Cancel
pub mod Open
pub mod Server
pub mod Client
pub mod Keeps
pub mod Stable
pub mod Invariant
