-- ===== src/Oidc/Logout/Ended.antt =====
-- What a confirmed logout ends, and where it sends the browser.
use authserver_go.Base.{
  String, ◌≡◌, ◌≢◌, refl, true, some, contains, string_eq, nat_eq, nat_beq_iff, eq_iff, beq_refl,
  arith, is_some, Bool-cases, Option-cases, inl, inr,
}
use authserver_go.Base.Assoc.{lookup, lookup-insert_self}
use authserver_go.Domain.Time.{Time, Uuid, uuid_nil}
use authserver_go.Domain.Entities.{Session, RefreshToken}
use authserver_go.Domain.Client.{Client}
use authserver_go.Store.Error.{Result, ok, err}
use authserver_go.Store.Clients.{ClientStore, find_by_client_id}
use authserver_go.Store.Sessions.{find, revoke}
use authserver_go.Store.RefreshTokens.{revoke_in, in_session}
use authserver_go.Store.RefreshTokens.Laws.{row, row-revoke_by_session_id}
use authserver_go.Oidc.Stores.{Stores}
use authserver_go.Oidc.SessionResolver.{session_id}
use authserver_go.Oidc.Logout.{
  Logout, LogoutForm, LogoutMoment, revoke_found, terminate_session, registered,
  validate_post_logout_uri, append_state, destination, handle_confirm,
}

-- Where a logout sends the browser: to the address of the configuration, or to one that the client has
-- registered.
pub data Onward (h : Logout) (f : LogoutForm) (clients : ClientStore) (target : String)
    : Type 0 where
  fallback : target ≡ append_state h h.post_logout_redirect_uri f.state → Onward h f clients target
  own_address :
      (c : Client)
      → find_by_client_id clients f.client_id ≡ ok c
      → contains c.post_logout_redirect_uris f.post_logout_redirect_uri ≡ true
      → target ≡ append_state h f.post_logout_redirect_uri f.state
      → Onward h f clients target

registered-own :
    (target : String) (x : Result Client)
    → registered target x ≡ true
    → (c : Client) × (x ≡ ok c) × (contains c.post_logout_redirect_uris target ≡ true)
unfolding registered
registered-own target (err e) h = cc
registered-own target (ok c) h = (c, refl, h)

destination-Onward :
    (h : Logout) (f : LogoutForm) (clients : ClientStore)
    → Onward h f clients (append_state h (destination h f clients) f.state)
unfolding destination
destination-Onward h f clients =
    elim (Bool-cases (validate_post_logout_uri h clients f.client_id f.post_logout_redirect_uri)) [
      | inl valid ↦
          let (c, found, own) =
            registered-own f.post_logout_redirect_uri (find_by_client_id clients f.client_id)
              (unfold validate_post_logout_uri in ground (arith, valid)) in
          own_address c found own (rw valid refl)
      | inr other ↦ fallback (rw other refl)
    ]

revoke_in-revoked :
    (session : Uuid) (at : Time) (u : RefreshToken)
    → u.session_id ≡ some session
    → is_some (revoke_in session at u).revoked_at ≡ true
unfolding revoke_in in_session
revoke_in-revoked session at u e = ground (arith, e, beq_refl session)

module _ (m : LogoutMoment) (id : Uuid) (s : Stores) (x : Session) where
  abbrev ended : Stores
  ended = terminate_session m (session_id id) s

  -- The session that the cookie names, under its own id.
  session_ended :
      lookup id s.sessions.sessions ≡ some x
      → x.id ≡ id
      → (y : Session) × (lookup id ended.sessions.sessions ≡ some y) × (is_some y.revoked_at ≡ true)
  unfolding terminate_session revoke_found find revoke
  session_ended e own = elim (Option-cases x.revoked_at) [
    | inr (t, old) ↦ (x, ground (arith, e, old), ground (arith, old))
    | inl live ↦ (
      record x { revoked_at = some m.revoked },
      ground (
        arith,
        e,
        own,
        live,
        lookup-insert_self id (record x { revoked_at = some m.revoked }) s.sessions.sessions,
      ),
      refl,
    )
  ]

  tokens_ended :
      (j : Uuid) (u : RefreshToken)
      → lookup id s.sessions.sessions ≡ some x
      → x.id ≡ id
      → id ≢ uuid_nil
      → row s.refresh j ≡ some u
      → u.session_id ≡ some id
      → (v : RefreshToken) × (row ended.refresh j ≡ some v) × (is_some v.revoked_at ≡ true)
  unfolding terminate_session revoke_found find
  tokens_ended j u e own named found of_session = (
    revoke_in id m.chain u,
    ground (
      arith,
      e,
      own,
      named,
      found,
      row-revoke_by_session_id s.refresh id m.chain j,
      nat_beq_iff x.id uuid_nil,
    ),
    revoke_in-revoked id m.chain u of_session,
  )

-- A logout that is confirmed on a form that parses and whose CSRF token verifies, with the cookie of a
-- stored session: the session is revoked afterwards, and so is each refresh token that was issued in
-- it; and the browser goes to the configured address, or to one that the named client has registered.
pub logout_ends_session :
    (h : Logout) (escape : String → String) (f : LogoutForm) (m : LogoutMoment) (id : Uuid)
    (x : Session) (s s' : Stores) (target : String)
    → f.parses ≡ true
    → f.csrf ≡ true
    → f.confirm ≢ "no"
    → lookup id s.sessions.sessions ≡ some x
    → x.id ≡ id
    → id ≢ uuid_nil
    → handle_confirm h escape f m (session_id id) s ≡ (target, s')
    → ((y : Session) × (lookup id s'.sessions.sessions ≡ some y) × (is_some y.revoked_at ≡ true))
      × ((j : Uuid) (u : RefreshToken)
          → row s.refresh j ≡ some u
          → u.session_id ≡ some id
          → (v : RefreshToken) × (row s'.refresh j ≡ some v) × (is_some v.revoked_at ≡ true))
      × Onward h f s.clients target
unfolding handle_confirm
logout_ends_session h escape f m id x s s' target parses csrf confirmed e own named done =
    let after : s' ≡ terminate_session m (session_id id) s =
      ground (arith, parses, csrf, confirmed, done, eq_iff f.confirm "no") in
    let sent : target ≡ append_state h (destination h f s.clients) f.state =
      ground (arith, parses, csrf, confirmed, done, eq_iff f.confirm "no") in
    (
      rw after (session_ended m id s x e own),
      λ j u found of_session. rw after (tokens_ended m id s x j u e own named found of_session),
      rw sent (destination-Onward h f s.clients),
    )
