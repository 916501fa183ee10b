-- ===== src/Lib.antt =====
-- A model of authserver-go, an OAuth 2.0 and OpenID Connect server in Go, and what holds of it.
--
-- The program. HTTP handlers (internal/oidc, internal/oidc/grants) take a request through a row of
-- checks, change stores (internal/store, with implementations in internal/store/memory and
-- internal/store/gormstore) and answer JSON. Tokens are hashed, verified and signed by internal/token;
-- the records that the stores hold, and the rules on a client and a password, are internal/domain.
--
-- The files.
--   Base: numbers, Boolean tests, lists, association lists and Go's string functions, shared by all.
--   Domain: Time (time.Time and time.Duration), Entities (the records), Client (client.go and
--     client_auth_method.go: Profile, ApplyProfile, Normalize, Validate, the lifetimes), PasswordPolicy,
--     Paged (paged.go, and the page that the memory stores cut).
--   Store: one file for each store of internal/store/memory, one function for each method: RefreshTokens,
--     AuthCodes, Sessions, PasswordResets, LoginAttempts, Users (with Roles, Logins and Tokens for the
--     calls on these), Roles, Scopes, Keys, DataProtection, AuditLogs, Clients. Contract is the
--     compare-and-set that MarkConsumed promises, with RefreshTokens.Ops and AuthCodes.Laws as its two
--     implementations. The Laws files say what each method leaves of each row.
--   Token: Crypto (hasher.go), Pkce (pkce.go), Claims (what issuer.go is handed), ClientAssertion
--     (clientassertion.go: the replay cache and VerifyClientAssertion), Keys (keys.go: EnsureActiveKey,
--     Rotate, PublicJWKSet).
--   Oidc: Http (answers, and checks that answer early), Stores (the wired stores as one state), Csrf
--     (csrf_guard.go), Grants (the token answer, ID claims), Grants.Refresh (refresh.go), Grants.AuthCode
--     (authcode.go), Grants.ClientCredentials (clientcreds.go), ClientAuth (clientauth.go), TokenEndpoint
--     (token.go), Revoke (revoke.go), SessionResolver (session_resolver.go), Authorize (authorize.go),
--     ReturnUrl and Login (login.go), Register (register.go), ForgotPassword (forgot_password.go),
--     ResetPassword (reset_password.go), Profile with Profile.Password and Profile.Api (profile.go),
--     UserInfo (userinfo.go), Logout (logout.go). SignedOut holds what the calls that sign an account out leave
--     of the stores. A handler is cut where it calls a store that changes:
--     `present` are the checks before, `redeem` what follows the compare-and-set, `mint` and `deliver` the
--     issuing and the final store; `handle` or `serve` puts them together. The Outcome files and their
--     likes invert a handler that answers.
--   Admin: Clients, Scopes, Sessions (with refresh tokens, keys and the audit log), Users, Access (deleteUser
--     and setUserPassword) and Roles for the handlers of internal/admin/api.go, Auth (auth.go and csrf.go).
--   Server: RateLimit (internal/server/ratelimit.go).
--   Tests: concrete data, runs, and the theorems applied to them.
--
-- How the state corresponds. A store is a record of association lists for its maps; a method that
-- changes it returns its result and the new store, and is one atomic step, as its mutex makes it. The
-- order of a range over a map is that of the list. A nil pointer is `none`; a Go error is a constructor
-- of StoreError. Each reading of the clock and each random draw is an argument, so two readings in one
-- request may differ. A time is a number of nanoseconds since Go's zero time; a UUID is a number.
--
-- Bounds and fuel. The walk along a chain of refresh tokens takes at most 1000 steps, as in the source,
-- and the theorems on it take chains up to that length. Lifetimes wrap as int64 nanoseconds. The digits
-- of a number are written with one more step than the number, which is more than it has digits. All other
-- loops recurse on a list or a text.
--
-- Parameters. SHA-256 with base64url, the random source, RSA and PEM, JWT signing and verification, bcrypt,
-- google/uuid, net/url, golang.org/x/time/rate, lestrrat-go/jwx and the encoding of the session cookie are
-- arguments; no theorem needs an assumption on them beyond those in its binders.
--
-- Not modelled. The gorm stores (SQL through a library), configuration, routing and its
-- middleware (the recover that answers 500 for a handler that panics included), start-up, mail delivery,
-- error logs, the data-protection key ring and its cookies, discovery, JWKS and home;
-- header writing and logging in the handlers that are modelled.
pub mod Base
pub mod Domain
pub mod Store
pub mod Token
pub mod Oidc
pub mod Admin
pub mod Server
pub mod Tests
