-- ===== src/Oidc/Logout.antt =====
-- internal/oidc/logout.go: GET and POST /connect/logout. Clearing the cookie, header writing and logging
-- are left out.
pub mod Ended
use authserver_go.Base.{
  String, Bool, true, false, not, ◌&&◌, ◌||◌, Option, none, some, List, [], ◌∷◌, ◌++◌, contains,
  ◌==◌, string_eq, if◌then◌else◌, is_some, nat_beq,
}
use authserver_go.Base.Text.{concat}
use authserver_go.Domain.Time.{Time, Uuid, uuid_nil}
use authserver_go.Domain.Entities.{Session}
use authserver_go.Domain.Client.{Client}
use authserver_go.Store.Error.{Result, ok, err}
use authserver_go.Store.Clients.{ClientStore, find_by_client_id}
use authserver_go.Store.Sessions.{SessionStore, find, revoke}
use authserver_go.Store.RefreshTokens.{RefreshTokenStore, revoke_by_session_id}
use authserver_go.Oidc.Http.{Response, reply, fail, method_not_allowed}
use authserver_go.Oidc.Stores.{Stores}
use authserver_go.Oidc.SessionResolver.{Cookie, no_cookie, bad_cookie, session_id}

-- `absolute` tells whether net/url parses an address with a scheme; `set_state` puts the state into the
-- query of an address that parses; `encode` is url.Values' Encode; `audience` is the first audience of a
-- hint that verifies.
pub record Logout : Type 0 where
  pub logout_path : String
  pub post_logout_redirect_uri : String
  pub absolute : String → Bool
  pub set_state : String → String → Option String
  pub encode : List (String × String) → String
  pub audience : String → Option String

pub record LogoutQuery : Type 0 where
  pub id_token_hint : String
  pub post_logout_redirect_uri : String
  pub state : String
  pub client_id : String

abbrev pub or_text : Option String → String → String
or_text none x = x
or_text (some y) x = y

-- The client id of the query, or that of the hint.
unfoldable pub client_of : Logout → LogoutQuery → String
client_of h q =
    if q.client_id == "" && not (q.id_token_hint == "")
    then or_text (h.audience q.id_token_hint) q.client_id
    else q.client_id

abbrev pub param : String → String → List (String × String)
param name value = if value == "" then [] else (name, value) ∷ []

-- handleEntry: the confirm page with the parameters that are not empty.
unfoldable pub handle_entry : Logout → LogoutQuery → String
unfolding client_of
handle_entry h q =
    let encoded = h.encode (
      param "post_logout_redirect_uri" q.post_logout_redirect_uri
      ++ param "state" q.state
      ++ param "client_id" (client_of h q)) in
    if encoded == "" then h.logout_path else concat h.logout_path (concat "?" encoded)

-- A posted form: whether it parses, whether its CSRF token verifies, and its fields.
pub record LogoutForm : Type 0 where
  pub parses : Bool
  pub csrf : Bool
  pub confirm : String
  pub post_logout_redirect_uri : String
  pub state : String
  pub client_id : String

-- The two readings of the clock.
pub record LogoutMoment : Type 0 where
  pub revoked : Time
  pub chain : Time

unfoldable pub revoke_found : LogoutMoment → Result Session → Stores → Stores
revoke_found m (err e) s = s
revoke_found m (ok x) s = record s {
  sessions = if is_some x.revoked_at then s.sessions else (revoke x.id m.revoked s.sessions).1;
  refresh =
      if nat_beq x.id uuid_nil then s.refresh else (revoke_by_session_id x.id m.chain s.refresh).1;
}

-- terminateSession
unfoldable pub terminate_session : LogoutMoment → Cookie → Stores → Stores
unfolding revoke_found
terminate_session m no_cookie s = s
terminate_session m bad_cookie s = s
terminate_session m (session_id id) s = revoke_found m (find s.sessions id) s

-- A client that has the address among its own; without one there is none to look for.
unfoldable pub registered : String → Result Client → Bool
registered target (err e) = false
registered target (ok c) = contains c.post_logout_redirect_uris target

-- validatePostLogoutURI
unfoldable pub validate_post_logout_uri : Logout → ClientStore → String → String → Bool
unfolding registered
validate_post_logout_uri h clients client_id target =
    if target == "" || not (h.absolute target) || client_id == ""
    then false
    else registered target (find_by_client_id clients client_id)

-- appendState
unfoldable pub append_state : Logout → String → String → String
append_state h target state =
    if state == "" then target else or_text (h.set_state target state) target

-- Where the browser goes afterwards.
unfoldable pub destination : Logout → LogoutForm → ClientStore → String
unfolding validate_post_logout_uri
destination h f clients =
    if validate_post_logout_uri h clients f.client_id f.post_logout_redirect_uri
    then f.post_logout_redirect_uri
    else h.post_logout_redirect_uri

-- handleConfirm: the address of the redirect. `escape` is url.QueryEscape.
unfoldable pub handle_confirm :
    Logout → (String → String) → LogoutForm → LogoutMoment → Cookie → Stores → String × Stores
unfolding terminate_session append_state destination
handle_confirm h escape f m jar s =
    if not f.parses
    then (concat h.logout_path (concat "?error=" (escape "malformed form")), s)
    else if not f.csrf
    then (concat h.logout_path (concat "?error=" (escape "antiforgery check failed")), s)
    else if f.confirm == "no"
    then (h.post_logout_redirect_uri, s)
    else (append_state h (destination h f s.clients) f.state, terminate_session m jar s)

pub data LogoutRequest : Type 0 where
  get : LogoutQuery → LogoutRequest
  post : LogoutForm → LogoutRequest
  other_method : LogoutRequest

-- ServeHTTP: the address of the redirect.
unfoldable pub serve :
    Logout
    → (String → String)
    → LogoutRequest
    → LogoutMoment
    → Cookie
    → Stores
    → Response String × Stores
unfolding handle_entry handle_confirm
serve h escape (get q) m jar s = (reply (handle_entry h q), s)
serve h escape (post f) m jar s =
    let (target, s') = handle_confirm h escape f m jar s in (reply target, s')
serve h escape other_method m jar s =
    (fail method_not_allowed "invalid_request" "method not allowed", s)
