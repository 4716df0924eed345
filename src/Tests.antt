-- ===== src/Tests.antt =====
-- The theorems, applied at concrete inputs.
pub mod Tokens
pub mod Names
pub mod Values
pub mod Stores
pub mod Clients
mod Servers
mod Texts
pub mod Trees
mod Models
