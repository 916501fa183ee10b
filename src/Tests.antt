-- ===== src/Tests.antt =====
-- Concrete data, runs on it, and the theorems applied to it.
mod Data
mod Refresh
mod AuthCode
mod Stores
mod Reset
mod Endpoints
mod Authorize
mod Server
mod Accounts
mod Handlers
mod Admin
mod Profile
