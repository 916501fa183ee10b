-- ===== src/Oidc.antt =====
-- internal/oidc: the protocol endpoints over the stores.
pub mod Http
pub mod Stores
pub mod SignedOut
pub mod Grants
pub mod ResetPassword
pub mod Authorize
pub mod ClientAuth
pub mod TokenEndpoint
pub mod Revoke
pub mod SessionResolver
pub mod Csrf
pub mod ReturnUrl
pub mod Login
pub mod Register
pub mod ForgotPassword
pub mod UserInfo
pub mod Logout
pub mod Profile
