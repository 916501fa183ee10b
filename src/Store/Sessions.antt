-- ===== src/Store/Sessions.antt =====
-- internal/store/memory/session.go: SessionStore.
pub mod Laws
use authserver_go.Base.{
  String, Bool, true, false, ◌&&◌, ◌||◌, not, Option, none, some, List, [], ◌∷◌, ◌==◌, ◌!=◌,
  string_eq, nat_eq, if◌then◌else◌, is_some, is_none,
}
use authserver_go.Base.Assoc.{Assoc, lookup, insert, values}
use authserver_go.Domain.Time.{Time, Uuid, before, after}
use authserver_go.Domain.Paged
use authserver_go.Domain.Paged.{PagedRequest, PagedResult}
use authserver_go.Domain.Entities.{Session}
use authserver_go.Store.Error.{Result, ok, err, Update, not_found, nil_entity}

pub record SessionStore : Type 0 where
  pub sessions : Assoc Uuid Session

abbrev pub new : SessionStore
new = record { sessions = [] }

unfoldable pub find : SessionStore → Uuid → Result Session
find s id = elim (lookup id s.sessions) [ none ↦ err not_found | some x ↦ ok x ]

unfoldable pub store : Option Session → Update SessionStore Unit
store none s = (err nil_entity, s)
store (some x) s = (ok tt, record { sessions = insert x.id x s.sessions })

unfoldable pub revoke : Uuid → Time → Update SessionStore Unit
revoke id at s = elim (lookup id s.sessions) [
  | none ↦ (err not_found, s)
  | some x ↦
      if is_some x.revoked_at
      then (ok tt, s)
      else (ok tt, record { sessions = insert id (record x { revoked_at = some at }) s.sessions })
]

-- The sort of ListByUserID: newest first.
unfoldable pub place : Session → List Session → List Session
place x [] = x ∷ []
place x (y ∷ ys) = if after y.created_at x.created_at then y ∷ place x ys else x ∷ y ∷ ys

unfoldable pub is_active_for : String → Time → Session → Bool
is_active_for user now x = x.user_id == user && is_none x.revoked_at && before now x.expires_at

unfoldable pub active_of : String → Time → Assoc Uuid Session → List Session
unfolding is_active_for place
active_of user now [] = []
active_of user now ((id, x) ∷ m) =
    let rest = active_of user now m in if is_active_for user now x then place x rest else rest

unfoldable pub list_by_user_id : SessionStore → String → Time → Result (List Session)
unfolding active_of
list_by_user_id s user now = ok (active_of user now s.sessions)

-- The `continue` test of RevokeByUserIDExcept.
unfoldable pub skipped : String → Uuid → Time → Uuid → Session → Bool
skipped user keep at id x =
    x.user_id != user || id == keep || is_some x.revoked_at || not (before at x.expires_at)

-- The loop: the sessions afterwards, and the ids that it revoked.
unfoldable pub revoke_loop :
    String → Uuid → Time → Assoc Uuid Session → Assoc Uuid Session × List Uuid
unfolding skipped
revoke_loop user keep at [] = ([], [])
revoke_loop user keep at ((id, x) ∷ m) =
    let (rest, ids) = revoke_loop user keep at m in
    if skipped user keep at id x
    then ((id, x) ∷ rest, ids)
    else ((id, record x { revoked_at = some at }) ∷ rest, id ∷ ids)

unfoldable pub revoke_by_user_id_except : String → Uuid → Time → Update SessionStore (List Uuid)
unfolding revoke_loop
revoke_by_user_id_except user keep at s =
    let (m, ids) = revoke_loop user keep at s.sessions in (ok ids, record { sessions = m })

-- `none` is the panic of the slice.
unfoldable pub get_paged : SessionStore → PagedRequest → Option (PagedResult Session)
get_paged s req = Paged.get_paged (values s.sessions) req
