-- ===== src/Store.antt =====
-- internal/store and internal/store/memory: the storage interfaces and their in-memory versions. Each
-- method runs under the store's mutex, so it is one function from a state to a state here.
pub mod Error
pub mod Contract
pub mod RefreshTokens
pub mod AuthCodes
pub mod Sessions
pub mod PasswordResets
pub mod LoginAttempts
pub mod Users
pub mod Keys
pub mod AuditLogs
pub mod Clients
pub mod Roles
pub mod Scopes
pub mod DataProtection
