-- ===== src/Oidc/Grants.antt =====
-- internal/oidc/grants: the answer of the token endpoint, and what the grants share.
pub mod Refresh
pub mod AuthCode
pub mod ClientCredentials
use authserver_go.Base.{
  ℕ, suc, ◌/◌, ◌-◌, nat_beq, String, Bool, true, false, Option, none, some, List, [], ◌∷◌, ◌==◌,
  string_eq, if◌then◌else◌,
}
use authserver_go.Base.Assoc.{Assoc, lookup, insert}
use authserver_go.Base.Int.{ℤ, pos, negsuc}
use authserver_go.Domain.Time.{second}
use authserver_go.Domain.Entities.{UserInfo, ClaimValue}

-- Absent optional fields are "", as Go's omitempty has them.
pub record TokenResponse : Type 0 where
  pub access_token : String
  pub token_type : String
  pub expires_in : ℤ
  pub refresh_token : String
  pub id_token : String
  pub scope : String

-- if v, ok := info.Claims[k]; ok { out[k] = v }
unfoldable pub copy_claim :
    Assoc String ClaimValue → String → Assoc String ClaimValue → Assoc String ClaimValue
copy_claim claims k out = elim (lookup k claims) [ none ↦ out | some v ↦ insert k v out ]

unfoldable pub scope_claims :
    Assoc String ClaimValue → String → Assoc String ClaimValue → Assoc String ClaimValue
unfolding copy_claim
scope_claims claims s out =
    if s == "profile"
    then copy_claim claims "preferred_username" (copy_claim claims "name" out)
    else if s == "email"
    then copy_claim claims "email_verified" (copy_claim claims "email" out)
    else out

unfoldable pub id_claims_loop :
    Assoc String ClaimValue → List String → Assoc String ClaimValue → Assoc String ClaimValue
unfolding scope_claims
id_claims_loop claims [] out = out
id_claims_loop claims (s ∷ scopes) out = id_claims_loop claims scopes (scope_claims claims s out)

unfoldable pub build_id_claims : UserInfo → List String → Assoc String ClaimValue
unfolding id_claims_loop
build_id_claims info scopes = id_claims_loop info.claims scopes []

-- int(d.Seconds()), for a whole number of seconds: the quotient, towards zero.
unfoldable pub whole_seconds : ℤ → ℤ
whole_seconds (pos n) = pos (n / second)
whole_seconds (negsuc n) = let q = suc n / second in if nat_beq q 0 then pos 0 else negsuc (q - 1)
