-- ===== src/Oidc/Authorize/Outcome.antt =====
-- Where the authorize endpoint redirects to, and what a code that it mints is bound to.
use authserver_go.Base.{
  String, ◌≡◌, ◌∙◌, refl, ap, true, Option, none, some, contains, string_eq, nat_eq, arith,
  Option-cases, Bool-cases, inl, inr,
}
use authserver_go.Base.Int.{ℤ}
use authserver_go.Domain.Time.{Time}
use authserver_go.Domain.Entities.{Session, UserInfo}
use authserver_go.Domain.Client.{Client}
use authserver_go.Store.Error.{Result, ok, err}
use authserver_go.Store.AuthCodes.{store}
use authserver_go.Store.Clients.{find_by_client_id}
use authserver_go.Store.Users
use authserver_go.Token.Crypto.{new_opaque_token}
use authserver_go.Oidc.SessionResolver.{resolve}
use authserver_go.Oidc.Stores.{Stores}
use authserver_go.Oidc.Authorize.{
  AuthorizeHandler, AuthorizeRequest, AuthorizeMoment, Answer, error_redirect, code_redirect, Step,
  go_on, stop, ◌>>=◌, check, request_error, max_age, age_of, session_of, within_age, still_valid,
  prompted, signed_in, choose, new_code, redirect, mint_code, issue, serve_client, serve,
}

-- The client's address that an answer redirects to.
unfoldable pub target : Answer → Option String
target (error_redirect uri code desc) = some uri
target (code_redirect uri raw) = some uri
target _ = none

-- An answer that redirects to the client goes to the redirect_uri of the request.
unfoldable Own : AuthorizeRequest → Answer → Type 0
Own r a = (uri : String) → target a ≡ some uri → uri ≡ r.redirect_uri

module _ {A B : Type 0} where
  pub >>=-go_on :
      (p : Step A) (f : A → Step B) (b : B)
      → (p >>= f) ≡ go_on b
      → (a : A) × (p ≡ go_on a) × (f a ≡ go_on b)
  >>=-go_on (go_on a) f b h = (a, refl, h)
  >>=-go_on (stop x) f b h = cc

  -- A property of every answer that a chain can stop with.
  pub >>=-stop :
      (p : Step A) (f : A → Step B) (P : Answer → Type 0)
      → ((x : Answer) → p ≡ stop x → P x)
      → ((a : A) (x : Answer) → f a ≡ stop x → P x)
      → (x : Answer) → (p >>= f) ≡ stop x
      → P x
  >>=-stop (go_on a) f P hp hf x h = hf a x h
  >>=-stop (stop y) f P hp hf x h = hp x (cc h)

request_error-Own :
    (h : AuthorizeHandler) (client : Client) (r : AuthorizeRequest) (x : Answer)
    → request_error h client r ≡ some x
    → Own r x
unfolding request_error target Own
request_error-Own h client r x e uri t = ground (arith, e, t)

check-Own :
    (h : AuthorizeHandler) (client : Client) (r : AuthorizeRequest) (x : Answer)
    → check (request_error h client r) ≡ stop x
    → Own r x
check-Own h client r x e = elim (Option-cases (request_error h client r)) [
  | inl n ↦ absurd (ground (arith, n, e))
  | inr (y, p) ↦ request_error-Own h client r x (ground (arith, p, e))
]

max_age-Own : (r : AuthorizeRequest) (x : Answer) → max_age r ≡ stop x → Own r x
unfolding max_age age_of target Own
max_age-Own r x e uri t = ground (arith, e, t)

within_age-Own :
    (r : AuthorizeRequest) (now : Time) (age : Option ℤ) (sess : Option Session) (x : Answer)
    → within_age r now age sess ≡ stop x
    → Own r x
unfolding within_age target Own
within_age-Own r now none sess x e uri t = absurd (cc)
within_age-Own r now (some d) none x e uri t = absurd (cc)
within_age-Own r now (some d) (some y) x e uri t = ground (arith, e, t)

prompted-Own :
    (r : AuthorizeRequest) (now : Time) (sess : Option Session) (x : Answer)
    → prompted r now sess ≡ stop x
    → Own r x
unfolding prompted still_valid target Own
prompted-Own r now none x e uri t = ground (arith, e, t)
prompted-Own r now (some y) x e uri t = ground (arith, e, t)

signed_in-Own :
    (r : AuthorizeRequest) (sess : Option Session) (x : Answer) → signed_in sess ≡ stop x → Own r x
unfolding signed_in target Own
signed_in-Own r none x e uri t = absurd (ground (arith, e, t))
signed_in-Own r (some y) x e uri t = absurd (cc)

choose-Own :
    (h : AuthorizeHandler) (client : Client) (r : AuthorizeRequest) (m : AuthorizeMoment)
    (s : Stores) (x : Answer)
    → choose h client r m s ≡ stop x
    → Own r x
unfolding choose
choose-Own h client r m s =
    >>=-stop (check (request_error h client r)) _ (Own r) (check-Own h client r) λ _.
      >>=-stop (max_age r) _ (Own r) (max_age-Own r) λ age.
        >>=-stop (within_age r m.aged age (session_of (resolve s.sessions m.resolved r.cookie))) _
          (Own r)
          (within_age-Own r m.aged age (session_of (resolve s.sessions m.resolved r.cookie)))
          λ aged.
            >>=-stop (prompted r m.prompted aged) _ (Own r) (prompted-Own r m.prompted aged)
              λ sess. signed_in-Own r sess

mint_code-Own :
    (h : AuthorizeHandler) (client : Client) (x : Session) (r : AuthorizeRequest)
    (m : AuthorizeMoment) (o : Option (String × String)) (s : Stores)
    → Own r (mint_code h client x r m o s).0
unfolding mint_code redirect target Own
mint_code-Own h client x r m none s uri t = ground (arith, t)
mint_code-Own h client x r m (some (raw, hash)) s uri t =
    go (store (some (new_code h client x r m hash)) s.codes).0 t
  where
    go : (q : Result (Unit {0})) → target (redirect h r raw q) ≡ some uri → uri ≡ r.redirect_uri
    go (err e) t = ground (arith, t)
    go (ok u) t = ground (arith, t)

issue-Own :
    (h : AuthorizeHandler) (client : Client) (r : AuthorizeRequest) (m : AuthorizeMoment)
    (s : Stores) (p : Step Session)
    → choose h client r m s ≡ p
    → Own r (issue h client r m s p).0
unfolding issue target Own
issue-Own h client r m s (stop x) q uri t = choose-Own h client r m s x q uri t
issue-Own h client r m s (go_on x) q uri t = go (Users.find_by_id s.users x.user_id) refl
  where
    go : (u : Result UserInfo) → Users.find_by_id s.users x.user_id ≡ u → uri ≡ r.redirect_uri
    go (err e) p = ground (arith, t, p)
    go (ok info) p =
        mint_code-Own h client x r m (new_opaque_token h.crypto m.opaque) s uri
          (ground (arith, t, p))

-- No open redirect: whenever the authorize endpoint redirects to a client's address, with a code or
-- with an error, the request's client_id names a stored client, and the address is, letter for
-- letter, one of the redirect URIs registered for it.
pub authorize_redirects_registered :
    (h : AuthorizeHandler) (r : AuthorizeRequest) (m : AuthorizeMoment) (s : Stores) (uri : String)
    → target (serve h r m s).0 ≡ some uri
    → (client : Client) × (find_by_client_id s.clients r.client_id ≡ ok client)
      × (contains client.redirect_uris uri ≡ true)
unfolding serve serve_client target Own
authorize_redirects_registered h r m s uri t = go (find_by_client_id s.clients r.client_id) refl
  where
    go :
        (c : Result Client)
        → find_by_client_id s.clients r.client_id ≡ c
        → (client : Client) × (find_by_client_id s.clients r.client_id ≡ ok client)
          × (contains client.redirect_uris uri ≡ true)
    go (err e) q = absurd (ground (arith, t, q))
    go (ok client) q = elim (Bool-cases (contains client.redirect_uris r.redirect_uri)) [
      | inr absent ↦ absurd (ground (arith, t, q, absent))
      | inl listed ↦
          let own : uri ≡ r.redirect_uri =
            issue-Own h client r m s (choose h client r m s) refl uri
              (ground (arith, t, q, listed)) in
          (client, q, ap (contains client.redirect_uris) own ∙ listed)
    ]
