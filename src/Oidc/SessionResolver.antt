-- ===== src/Oidc/SessionResolver.antt =====
-- internal/oidc/session_resolver.go: Resolve. Decoding the cookie is securecookie's.
use authserver_go.Base.{◌||◌, if◌then◌else◌, is_some}
use authserver_go.Domain.Time.{Time, Uuid, after}
use authserver_go.Domain.Entities.{Session}
use authserver_go.Store.Error.{Result, ok, err}
use authserver_go.Store.Sessions.{SessionStore, find}

-- What CookieManager.FromRequest gives: ErrNoSession, another error, or the id.
pub data Cookie : Type 0 where
  no_cookie bad_cookie : Cookie
  session_id : Uuid → Cookie

-- A session; nil without an error; ErrNoSession; any other error.
pub data Resolved : Type 0 where
  active : Session → Resolved
  inactive no_session lookup_failed : Resolved

unfoldable pub usable : Time → Session → Resolved
usable now x = if is_some x.revoked_at || after now x.expires_at then inactive else active x

unfoldable pub resolve_found : Time → Result Session → Resolved
resolve_found now (err e) = lookup_failed
resolve_found now (ok x) = usable now x

unfoldable pub resolve : SessionStore → Time → Cookie → Resolved
resolve s now no_cookie = no_session
resolve s now bad_cookie = lookup_failed
resolve s now (session_id id) = resolve_found now (find s id)
