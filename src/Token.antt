-- ===== src/Token.antt =====
-- internal/token: PKCE, client assertions, signing keys, and the claims that are signed.
pub mod Crypto
pub mod Pkce
pub mod Claims
pub mod ClientAssertion
pub mod Keys
