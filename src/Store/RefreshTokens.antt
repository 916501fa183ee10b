-- ===== src/Store/RefreshTokens.antt =====
-- internal/store/memory/refreshtoken.go: RefreshTokenStore. The per-id lock and the store's mutex make
-- each method atomic.
pub mod Laws
pub mod Ops
use authserver_go.Base.{
  String, Bool, true, false, ◌&&◌, Option, none, some, [], ◌==◌, string_eq, nat_eq, if◌then◌else◌,
  is_some, is_none,
}
use authserver_go.Base.Assoc.{Assoc, lookup, insert, update_all, values}
use authserver_go.Domain.Time.{Time, Uuid}
use authserver_go.Domain.Paged
use authserver_go.Domain.Paged.{PagedRequest, PagedResult}
use authserver_go.Domain.Entities.{RefreshToken}
use authserver_go.Store.Error.{Result, ok, err, Update, not_found, nil_entity, empty_hash}

pub record RefreshTokenStore : Type 0 where
  pub tokens : Assoc Uuid RefreshToken
  pub by_hash : Assoc String Uuid

abbrev pub new : RefreshTokenStore
new = record { tokens = []; by_hash = [] }

-- Go's zero value, which a read of a missing key gives.
abbrev pub zero_token : RefreshToken
zero_token = record {
  id = 0;
  token_hash = "";
  client_id = "";
  user_id = "";
  session_id = none;
  parent_token_id = none;
  scope = "";
  expires_at = 0;
  absolute_expires_at = 0;
  consumed_at = none;
  revoked_at = none;
  created_at = 0;
}

unfoldable pub store : Option RefreshToken → Update RefreshTokenStore Unit
store none s = (err nil_entity, s)
store (some t) s = if t.token_hash == "" then (err empty_hash, s) else (
  ok tt,
  record { tokens = insert t.id t s.tokens; by_hash = insert t.token_hash t.id s.by_hash },
)

abbrev pub or_zero : Option RefreshToken → RefreshToken
or_zero none = zero_token
or_zero (some t) = t

unfoldable pub find_by_hash : RefreshTokenStore → String → Result RefreshToken
find_by_hash s hash = elim (lookup hash s.by_hash) [
  | none ↦ err not_found
  | some id ↦ ok (or_zero (lookup id s.tokens))
]

unfoldable pub find_by_id : RefreshTokenStore → Uuid → Result RefreshToken
find_by_id s id = elim (lookup id s.tokens) [ none ↦ err not_found | some t ↦ ok t ]

unfoldable pub mark_consumed : Uuid → Time → Update RefreshTokenStore Bool
mark_consumed id at s = elim (lookup id s.tokens) [
  | none ↦ (err not_found, s)
  | some t ↦
      if is_some t.consumed_at
      then (ok false, s)
      else (ok true, record s { tokens = insert id (record t { consumed_at = some at }) s.tokens })
]

unfoldable pub revoke : Uuid → Time → Update RefreshTokenStore Unit
revoke id at s = elim (lookup id s.tokens) [
  | none ↦ (err not_found, s)
  | some t ↦
      if is_some t.revoked_at
      then (ok tt, s)
      else (ok tt, record s { tokens = insert id (record t { revoked_at = some at }) s.tokens })
]

-- tok.SessionID != nil && *tok.SessionID == sessionID
unfoldable pub in_session : Uuid → RefreshToken → Bool
in_session session t = elim t.session_id [ none ↦ false | some sid ↦ sid == session ]

-- The body of the loop in RevokeBySessionID.
unfoldable pub revoke_in : Uuid → Time → RefreshToken → RefreshToken
unfolding in_session
revoke_in session at t =
    if in_session session t && is_none t.revoked_at then record t { revoked_at = some at } else t

unfoldable pub revoke_by_session_id : Uuid → Time → Update RefreshTokenStore Unit
unfolding revoke_in
revoke_by_session_id session at s =
    (ok tt, record s { tokens = update_all (revoke_in session at) s.tokens })

-- `none` is the panic of the slice.
unfoldable pub get_paged : RefreshTokenStore → PagedRequest → Option (PagedResult RefreshToken)
get_paged s req = Paged.get_paged (values s.tokens) req
