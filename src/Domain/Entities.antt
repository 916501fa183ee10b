-- ===== src/Domain/Entities.antt =====
-- The records of internal/domain that carry no code of their own.
use authserver_go.Base.{String, Bool, Option, ℕ}
use authserver_go.Base.Assoc.{Assoc}
use authserver_go.Domain.Time.{Time, Uuid}

pub record AuthorizationCode : Type 0 where
  pub id : Uuid
  pub code_hash : String
  pub client_id : String
  pub user_id : String
  pub session_id : Option Uuid
  pub redirect_uri : String
  pub code_challenge : Option String
  pub code_challenge_method : Option String
  pub scope : String
  pub nonce : Option String
  pub expires_at : Time
  pub consumed_at : Option Time
  pub created_at : Time

pub record RefreshToken : Type 0 where
  pub id : Uuid
  pub token_hash : String
  pub client_id : String
  pub user_id : String
  pub session_id : Option Uuid
  pub parent_token_id : Option Uuid
  pub scope : String
  pub expires_at : Time
  pub absolute_expires_at : Time
  pub consumed_at : Option Time
  pub revoked_at : Option Time
  pub created_at : Time

pub record Session : Type 0 where
  pub id : Uuid
  pub user_id : String
  pub created_at : Time
  pub expires_at : Time
  pub revoked_at : Option Time
  pub properties : Assoc String String

pub record PasswordResetToken : Type 0 where
  pub id : Uuid
  pub user_id : String
  pub token_hash : String
  pub created_at : Time
  pub expires_at : Time
  pub consumed_at : Option Time

pub record SigningKey : Type 0 where
  pub key_id : String
  pub algorithm : String
  pub private_key_pem : String
  pub public_key_pem : String
  pub created_at : Time
  pub retired_at : Option Time
  pub is_active : Bool

pub record User : Type 0 where
  pub id : String
  pub username : String
  pub email : String
  pub email_confirmed : Bool
  pub password_hash : String
  pub security_stamp : String
  pub two_factor_enabled : Bool
  pub lockout_end : Option Time
  pub lockout_enabled : Bool
  pub access_failed_count : ℕ
  pub created_at : Time
  pub updated_at : Time

pub record UserClaim : Type 0 where
  pub claim_type : String
  pub value : String

pub record Role : Type 0 where
  pub id : String
  pub name : String

pub record RoleClaim : Type 0 where
  pub claim_type : String
  pub value : String

pub record UserLogin : Type 0 where
  pub login_provider : String
  pub provider_key : String
  pub provider_name : String
  pub user_id : String

pub record UserToken : Type 0 where
  pub user_id : String
  pub login_provider : String
  pub name : String
  pub value : String

pub record Scope : Type 0 where
  pub name : String
  pub display_name : String
  pub description : String
  pub required : Bool
  pub emphasize : Bool
  pub properties : Assoc String String

-- A byte slice is the text of its bytes.
pub record DataProtectionKey : Type 0 where
  pub key_id : String
  pub hash_key : String
  pub block_key : String
  pub csrf_key : String
  pub created_at : Time
  pub retired_at : Option Time
  pub is_active : Bool

-- The values that the server puts into a map[string]any.
pub data ClaimValue : Type 0 where
  text : String → ClaimValue
  flag : Bool → ClaimValue

pub record UserInfo : Type 0 where
  pub user_id : String
  pub claims : Assoc String ClaimValue

pub record AuditLog : Type 0 where
  pub id : Uuid
  pub action : String
  pub actor_user_id : String
  pub target_type : String
  pub target_id : String
  pub timestamp : Time
  pub ip_address : String
  pub user_agent : String
  pub metadata : String
