-- ===== src/Authz.antt =====
-- internal/shared/authz/client.go: the permission checks, and the writes of roles and overrides.
pub mod Names
pub mod Tables
pub mod Pool
pub mod Layers
pub mod Cache
pub mod Checks
pub mod Wrappers
pub mod Writes
pub mod Untouched
pub mod Lists
mod Inverse
mod Grants
mod Precedence
mod Hierarchy
mod Bypass
pub mod Exec
mod Members
mod Deny
mod Caching
pub mod Granting
mod Closed
mod Listed
mod Examples
