-- ===== src/Admin/Auth/Admitted.antt =====
-- What a request that gets to the admin API has shown.
use authserver_go.Base.{
  String, ◌≡◌, ◌≢◌, refl, sym, ap, ◌∙◌, true, false, not, ◌||◌, some, List, string_eq, eq_iff,
  arith, Bool-cases, Option-cases, inl, inr,
}
use authserver_go.Domain.Entities.{Session}
use authserver_go.Store.Error.{Result, ok, err}
use authserver_go.Store.Users.{UserStore}
use authserver_go.Store.Users.Roles.{get_user_roles}
use authserver_go.Admin.Users.{contains_string}
use authserver_go.Admin.Auth.{
  AuthConfig, AuthMethod, anonymous, token, session, Headers, SessionAnswer, who, nobody, outage,
  Gate, enter, deny, extract_admin_token, role_or_default, by_roles, by_session, token_fits,
  auth_gate, csrf_fits, is_ambient, csrf_gate, admit,
}

-- One of the three ways in, for a way to be let in and an admin.
pub data Entitled (c : AuthConfig) (r : Headers) (answer : SessionAnswer) (users : UserStore)
    (m : AuthMethod) (actor : String) : Type 0 where
  by_config : m ≡ anonymous → c.allow_anonymous ≡ true → Entitled c r answer users m actor
  by_token :
      m ≡ token
      → c.admin_token ≢ ""
      → extract_admin_token r ≡ c.admin_token
      → Entitled c r answer users m actor
  by_role :
      (x : Session) (roles : List String)
      → m ≡ session
      → actor ≡ x.user_id
      → answer ≡ who x
      → get_user_roles users x.user_id ≡ ok roles
      → contains_string roles (role_or_default c) ≡ true
      → Entitled c r answer users m actor

module _ (c : AuthConfig) (r : Headers) (users : UserStore) (m : AuthMethod) (actor : String) where
  by_roles-enter :
      (x : Session) (roles : Result (List String))
      → by_roles c x roles ≡ enter m actor
      → (l : List String) × (roles ≡ ok l)
        × (contains_string l (role_or_default c) ≡ true)
        × (m ≡ session)
        × (actor ≡ x.user_id)
  unfolding by_roles
  by_roles-enter x (err y) e = cc
  by_roles-enter x (ok l) e = elim (Bool-cases (contains_string l (role_or_default c))) [
    | inl has ↦ (l, refl, has, ground (arith, has, e), ground (arith, has, e))
    | inr lacks ↦ absurd (ground (arith, lacks, e))
  ]

  by_session-Entitled :
      (answer : SessionAnswer)
      → by_session c answer users ≡ enter m actor
      → Entitled c r answer users m actor
  unfolding by_session
  by_session-Entitled outage e = cc
  by_session-Entitled nobody e = cc
  by_session-Entitled (who x) e =
      let (roles, known, has, way, own) = by_roles-enter x (get_user_roles users x.user_id) e in
      by_role x roles way own refl known has

  auth_gate-Entitled :
      (answer : SessionAnswer)
      → auth_gate c r answer users ≡ enter m actor
      → Entitled c r answer users m actor
  unfolding auth_gate
  auth_gate-Entitled answer e = elim (Bool-cases c.allow_anonymous) [
    | inl free ↦ by_config (ground (arith, free, e)) free
    | inr shut ↦ elim (Bool-cases (token_fits c r)) [
      | inl fits ↦
          by_token (ground (arith, shut, fits, e))
            (unfold token_fits in ground (arith, fits, eq_iff c.admin_token ""))
            (unfold token_fits in
              ground (arith, fits, eq_iff (extract_admin_token r) c.admin_token))
      | inr not_token ↦ elim (Bool-cases c.resolves) [
        | inl wired ↦ by_session-Entitled answer (ground (arith, shut, not_token, wired, e))
        | inr bare ↦ absurd (ground (arith, shut, not_token, bare, e))
      ]
    ]
  ]

  csrf_gate-enter :
      (g : Gate)
      → csrf_gate r g ≡ enter m actor
      → (g ≡ enter m actor) × ((r.safe || not (is_ambient m) || csrf_fits r) ≡ true)
  unfolding csrf_gate
  csrf_gate-enter (deny status text) e = cc
  csrf_gate-enter (enter n who_is) e =
      elim (Bool-cases (r.safe || not (is_ambient n) || csrf_fits r)) [
        | inl fine ↦
            let same : enter n who_is ≡ enter m actor = ground (arith, fine, e) in
            let way : n ≡ m = cc same in
            (same, ap (λ y. r.safe || not (is_ambient y) || csrf_fits r) (sym way) ∙ fine)
        | inr refused ↦ absurd (ground (arith, refused, e))
      ]

needs_csrf :
    (r : Headers) (m : AuthMethod)
    → (r.safe || not (is_ambient m) || csrf_fits r) ≡ true
    → r.safe ≡ false
    → m ≢ token
    → csrf_fits r ≡ true
unfolding is_ambient
needs_csrf r anonymous fine changes other = ground (arith, fine, changes)
needs_csrf r session fine changes other = ground (arith, fine, changes)
needs_csrf r token fine changes other = absurd (other refl)

csrf_fits-same :
    (r : Headers) → csrf_fits r ≡ true → (r.csrf_cookie ≡ some r.csrf_token) × (r.csrf_token ≢ "")
unfolding csrf_fits
csrf_fits-same r e = elim (Option-cases r.csrf_cookie) [
  | inl missing ↦ absurd (ground (arith, missing, e))
  | inr (cookie, there) ↦ (
    there ∙ ap some (ground (arith, there, e, eq_iff cookie r.csrf_token)),
    ground (arith, there, e, eq_iff r.csrf_token ""),
  )
]

-- A request that gets to the admin API is entitled: anonymous use is configured, or it carries the
-- configured token, which is not empty, or it has the session of a user who holds the admin role; and
-- unless it changes nothing or came by the token, its CSRF header equals its cookie and is not empty.
pub admit-Entitled :
    (c : AuthConfig) (r : Headers) (answer : SessionAnswer) (users : UserStore) (m : AuthMethod)
    (actor : String)
    → admit c r answer users ≡ enter m actor
    → Entitled c r answer users m actor
      × (r.safe ≡ false → m ≢ token → (r.csrf_cookie ≡ some r.csrf_token) × (r.csrf_token ≢ ""))
unfolding admit
admit-Entitled c r answer users m actor e =
    let (entered, fine) = csrf_gate-enter c r users m actor (auth_gate c r answer users) e in
    (
      auth_gate-Entitled c r users m actor answer entered,
      λ changes other. csrf_fits-same r (needs_csrf r m fine changes other),
    )
