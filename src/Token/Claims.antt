-- ===== src/Token/Claims.antt =====
-- The claims that the grants hand to internal/token/issuer.go, and the issuer as they see it.
use authserver_go.Base.{String, Option}
use authserver_go.Base.Assoc.{Assoc}
use authserver_go.Base.Int.{ℤ}
use authserver_go.Domain.Time.{Time}
use authserver_go.Domain.Entities.{ClaimValue}

pub record AccessTokenClaims : Type 0 where
  pub subject : String
  pub client_id : String
  pub scope : String
  pub auth_time : Option Time
  pub expires_in : ℤ

pub record IdTokenClaims : Type 0 where
  pub subject : String
  pub client_id : String
  pub scope : String
  pub nonce : String
  pub auth_time : Time
  pub at_hash : String
  pub claims : Assoc String ClaimValue
  pub expires_in : ℤ

-- IssueAccessToken and IssueIDToken: the signed text, or `none` for an error.
pub record Issuer : Type 0 where
  pub issue_access_token : AccessTokenClaims → Option String
  pub issue_id_token : IdTokenClaims → Option String
