-- ===== src/Admin.antt =====
-- internal/admin/api.go: what the handlers of the admin API share. The detail text of an error, header
-- writing and logging are left out.
pub mod Clients
pub mod Users
pub mod Scopes
pub mod Sessions
pub mod Roles
pub mod Access
pub mod Auth
use authserver_go.Base.{ℕ, String, Bool, Option}
use authserver_go.Domain.Time.{Uuid}
use authserver_go.Domain.Client.{Url}
use authserver_go.Store.Error.{
  Result, ok, err, not_found, duplicate, nil_entity, empty_id, empty_hash,
}
use authserver_go.Store.Users.{Bcrypt}
use authserver_go.Oidc.Http.{Response, reply, fail, Check, pass, reject, internal_error}

-- `jwks_keys` tells how many keys the JSON of a key set has, where it decodes; `parse_uuid` is
-- google/uuid's; `resets_set` and `audited` tell whether PasswordResets and AuditLogs are set.
pub record Api : Type 0 where
  pub parse_url : String → Option Url
  pub jwks_keys : String → Option ℕ
  pub parse_uuid : String → Option Uuid
  pub bcrypt : Bcrypt
  pub resets_set : Bool
  pub audited : Bool

abbrev pub not_found_status : ℕ
not_found_status = 404

-- A lookup: ErrNotFound ends the request with 404, and another error with 500.
unfoldable pub found {ℓ} : {A : Type ℓ} → String → Result A → Check A
found text (ok a) = pass a
found text (err not_found) = reject not_found_status "not found" ""
found text (err e) = reject internal_error text ""

-- The answer to a change that has nothing to tell.
unfoldable pub settled : String → Result (Unit {0}) → Response (Unit {0})
settled text (ok x) = reply tt
settled text (err not_found) = fail not_found_status "not found" ""
settled text (err e) = fail internal_error text ""
