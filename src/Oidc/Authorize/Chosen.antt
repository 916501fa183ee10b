-- ===== src/Oidc/Authorize/Chosen.antt =====
-- The session that the authorize endpoint mints a code for, and where its checks stop.
use authserver_go.Base.{
  ◌≤◌, ◌≡◌, ◌∙◌, refl, ap, Bool, true, false, Option, none, some, string_eq, nat_eq, arith,
  Option-cases, inl, inr, some_inj,
}
use authserver_go.Base.Int.{ℤ}
use authserver_go.Domain.Time.{Time, Uuid}
use authserver_go.Domain.Entities.{Session}
use authserver_go.Domain.Client.{Client}
use authserver_go.Store.Error.{Result, ok, err}
use authserver_go.Store.Sessions.{SessionStore, find}
use authserver_go.Oidc.SessionResolver.{
  Cookie, session_id, no_cookie, bad_cookie, Resolved, active, inactive, no_session, lookup_failed,
  usable, resolve_found, resolve,
}
use authserver_go.Oidc.Stores.{Stores}
use authserver_go.Oidc.Authorize.{
  AuthorizeHandler, AuthorizeRequest, AuthorizeMoment, Answer, code_redirect, go_on, stop, check,
  request_error, max_age, age_of, session_of, within_age, still_valid, prompted, signed_in, choose,
}
use authserver_go.Oidc.Authorize.Outcome.{>>=-go_on, >>=-stop}

-- The cookie of the request names this stored session, which is neither revoked nor expired.
pub record SignedIn (s : SessionStore) (now : Time) (c : Cookie) (x : Session) : Type 0 where
  pub id : Uuid
  pub names : c ≡ session_id id
  pub stored : find s id ≡ ok x
  pub not_revoked : x.revoked_at ≡ none
  pub not_expired : now ≤ x.expires_at

resolve-SignedIn :
    (s : SessionStore) (now : Time) (c : Cookie) (x : Session)
    → resolve s now c ≡ active x
    → SignedIn s now c x
unfolding resolve resolve_found usable
resolve-SignedIn s now no_cookie x e = absurd (cc e)
resolve-SignedIn s now bad_cookie x e = absurd (cc e)
resolve-SignedIn s now (session_id id) x e = go (find s id) refl
  where
    go : (r : Result Session) → find s id ≡ r → SignedIn s now (session_id id) x
    go (err f) q = absurd (ground (arith, e, q))
    go (ok y) q = ground (arith, e, q)

session_of-some : (r : Resolved) (x : Session) → session_of r ≡ some x → r ≡ active x
unfolding session_of
session_of-some (active y) x e = ap active (some_inj y x e)
session_of-some inactive x e = absurd (cc e)
session_of-some no_session x e = absurd (cc e)
session_of-some lookup_failed x e = absurd (cc e)

within_age-some :
    (r : AuthorizeRequest) (now : Time) (age : Option ℤ) (sess : Option Session) (x : Session)
    → within_age r now age sess ≡ go_on (some x)
    → sess ≡ some x
unfolding within_age
within_age-some r now none sess x e = cc e
within_age-some r now (some d) none x e = cc e
within_age-some r now (some d) (some y) x e = ground (arith, e)

prompted-some :
    (r : AuthorizeRequest) (now : Time) (sess : Option Session) (x : Session)
    → prompted r now sess ≡ go_on (some x)
    → sess ≡ some x
unfolding prompted still_valid
prompted-some r now none x e = ground (arith, e)
prompted-some r now (some y) x e = ground (arith, e)

signed_in-some : (sess : Option Session) (x : Session) → signed_in sess ≡ go_on x → sess ≡ some x
unfolding signed_in
signed_in-some none x e = cc
signed_in-some (some y) x e = cc e

pub choose-go_on :
    (h : AuthorizeHandler) (client : Client) (r : AuthorizeRequest) (m : AuthorizeMoment)
    (s : Stores) (x : Session)
    → choose h client r m s ≡ go_on x
    → (request_error h client r ≡ none) × SignedIn s.sessions m.resolved r.cookie x
unfolding choose
choose-go_on h client r m s x e =
    let res = resolve s.sessions m.resolved r.cookie in
    let (_, checked, e1) = >>=-go_on (check (request_error h client r)) _ x e in
    let (age, _, e2) = >>=-go_on (max_age r) _ x e1 in
    let (aged, young, e3) = >>=-go_on (within_age r m.aged age (session_of res)) _ x e2 in
    let (sess, fine, e4) = >>=-go_on (prompted r m.prompted aged) _ x e3 in
    let some_sess = signed_in-some sess x e4 in
    let some_aged = prompted-some r m.prompted aged x (fine ∙ ap go_on some_sess) in
    let found = within_age-some r m.aged age (session_of res) x (young ∙ ap go_on some_aged) in
    (
      no_error checked,
      resolve-SignedIn s.sessions m.resolved r.cookie x (session_of-some res x found),
    )
  where
    no_error :
        {u : Unit {0}}
        → check (request_error h client r) ≡ go_on u
        → request_error h client r ≡ none
    no_error c = elim (Option-cases (request_error h client r)) [
      | inl n ↦ n
      | inr (y, p) ↦ absurd (ground (arith, p, c))
    ]

-- The checks never stop with a code.
unfoldable pub is_code : Answer → Bool
is_code (code_redirect uri raw) = true
is_code _ = false

unfoldable pub Codeless : Answer → Type 0
Codeless a = is_code a ≡ false

check-Codeless :
    (h : AuthorizeHandler) (client : Client) (r : AuthorizeRequest) (x : Answer)
    → check (request_error h client r) ≡ stop x
    → Codeless x
unfolding request_error is_code Codeless
check-Codeless h client r x e = ground (arith, e)

max_age-Codeless : (r : AuthorizeRequest) (x : Answer) → max_age r ≡ stop x → Codeless x
unfolding max_age age_of is_code Codeless
max_age-Codeless r x e = ground (arith, e)

within_age-Codeless :
    (r : AuthorizeRequest) (now : Time) (age : Option ℤ) (sess : Option Session) (x : Answer)
    → within_age r now age sess ≡ stop x
    → Codeless x
unfolding within_age is_code Codeless
within_age-Codeless r now none sess x e = absurd (cc)
within_age-Codeless r now (some d) none x e = absurd (cc)
within_age-Codeless r now (some d) (some y) x e = ground (arith, e)

prompted-Codeless :
    (r : AuthorizeRequest) (now : Time) (sess : Option Session) (x : Answer)
    → prompted r now sess ≡ stop x
    → Codeless x
unfolding prompted still_valid is_code Codeless
prompted-Codeless r now none x e = ground (arith, e)
prompted-Codeless r now (some y) x e = ground (arith, e)

signed_in-Codeless : (sess : Option Session) (x : Answer) → signed_in sess ≡ stop x → Codeless x
unfolding signed_in is_code Codeless
signed_in-Codeless none x e = ground (arith, e)
signed_in-Codeless (some y) x e = absurd (cc)

pub choose-Codeless :
    (h : AuthorizeHandler) (client : Client) (r : AuthorizeRequest) (m : AuthorizeMoment)
    (s : Stores) (x : Answer)
    → choose h client r m s ≡ stop x
    → Codeless x
unfolding choose
choose-Codeless h client r m s =
    let sess : Option Session = session_of (resolve s.sessions m.resolved r.cookie) in
    >>=-stop (check (request_error h client r)) _ Codeless (check-Codeless h client r) λ _.
      >>=-stop (max_age r) _ Codeless (max_age-Codeless r) λ age.
        >>=-stop (within_age r m.aged age sess) _ Codeless (within_age-Codeless r m.aged age sess)
          λ aged.
            >>=-stop (prompted r m.prompted aged) _ Codeless (prompted-Codeless r m.prompted aged)
              λ last. signed_in-Codeless last
