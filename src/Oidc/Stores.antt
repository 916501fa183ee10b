-- ===== src/Oidc/Stores.antt =====
-- The stores that cmd/authserver wires into the handlers, as one state.
use authserver_go.Store.RefreshTokens.{RefreshTokenStore}
use authserver_go.Store.AuthCodes.{AuthorizationCodeStore}
use authserver_go.Store.Sessions.{SessionStore}
use authserver_go.Store.PasswordResets.{PasswordResetStore}
use authserver_go.Store.LoginAttempts.{LoginAttemptTracker}
use authserver_go.Store.Users.{UserStore}
use authserver_go.Store.AuditLogs.{AuditLogStore}
use authserver_go.Store.Clients.{ClientStore}
use authserver_go.Store.RefreshTokens
use authserver_go.Store.AuthCodes
use authserver_go.Store.Sessions
use authserver_go.Store.PasswordResets
use authserver_go.Store.LoginAttempts
use authserver_go.Store.Users
use authserver_go.Store.AuditLogs
use authserver_go.Store.Clients

pub record Stores : Type 0 where
  pub clients : ClientStore
  pub users : UserStore
  pub sessions : SessionStore
  pub codes : AuthorizationCodeStore
  pub refresh : RefreshTokenStore
  pub resets : PasswordResetStore
  pub tracker : LoginAttemptTracker
  pub audit : AuditLogStore

abbrev pub no_data : Stores
no_data = record {
  clients = Clients.new;
  users = Users.new;
  sessions = Sessions.new;
  codes = AuthCodes.new;
  refresh = RefreshTokens.new;
  resets = PasswordResets.new;
  tracker = LoginAttempts.new;
  audit = AuditLogs.new;
}
