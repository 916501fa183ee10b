-- ===== src/Store/AuthCodes.antt =====
-- internal/store/memory/authcode.go: AuthorizationCodeStore.
pub mod Laws
use authserver_go.Base.{
  String, Bool, true, false, Option, none, some, [], ◌==◌, string_eq, nat_eq, if◌then◌else◌,
  is_some,
}
use authserver_go.Base.Assoc.{Assoc, lookup, insert}
use authserver_go.Domain.Time.{Time, Uuid}
use authserver_go.Domain.Entities.{AuthorizationCode}
use authserver_go.Store.Error.{Result, ok, err, Update, not_found, nil_entity, empty_hash}

pub record AuthorizationCodeStore : Type 0 where
  pub codes : Assoc Uuid AuthorizationCode
  pub by_hash : Assoc String Uuid

abbrev pub new : AuthorizationCodeStore
new = record { codes = []; by_hash = [] }

abbrev pub zero_code : AuthorizationCode
zero_code = record {
  id = 0;
  code_hash = "";
  client_id = "";
  user_id = "";
  session_id = none;
  redirect_uri = "";
  code_challenge = none;
  code_challenge_method = none;
  scope = "";
  nonce = none;
  expires_at = 0;
  consumed_at = none;
  created_at = 0;
}

unfoldable pub store : Option AuthorizationCode → Update AuthorizationCodeStore Unit
store none s = (err nil_entity, s)
store (some c) s = if c.code_hash == "" then (err empty_hash, s) else (
  ok tt,
  record { codes = insert c.id c s.codes; by_hash = insert c.code_hash c.id s.by_hash },
)

abbrev pub or_zero : Option AuthorizationCode → AuthorizationCode
or_zero none = zero_code
or_zero (some c) = c

unfoldable pub find_by_hash : AuthorizationCodeStore → String → Result AuthorizationCode
find_by_hash s hash = elim (lookup hash s.by_hash) [
  | none ↦ err not_found
  | some id ↦ ok (or_zero (lookup id s.codes))
]

unfoldable pub mark_consumed : Uuid → Time → Update AuthorizationCodeStore Bool
mark_consumed id at s = elim (lookup id s.codes) [
  | none ↦ (err not_found, s)
  | some c ↦
      if is_some c.consumed_at
      then (ok false, s)
      else (ok true, record s { codes = insert id (record c { consumed_at = some at }) s.codes })
]
