-- ===== src/Oidc/Login/Outcome.antt =====
-- What a sign-in that is answered has gone through, and when a session is opened.
use authserver_go.Base.{
  String, ◌≡◌, ◌≢◌, refl, sym, ap, ◌∙◌, true, false, ◌||◌, Option, none, some, ◌==◌, string_eq,
  nat_eq, eq_iff, arith, Bool-cases, Option-cases, inl, inr, ◌⊎◌, if◌then◌else◌, subst, ◌&&◌,
  is_some, beq_refl,
}
use authserver_go.Base.Assoc.{lookup, lookup-insert_self, lookup-erase}
use authserver_go.Base.Text.{trim_space}
use authserver_go.Domain.Entities.{UserInfo}
use authserver_go.Store.LoginAttempts.{is_locked_out, reset}
use authserver_go.Store.Users.{validate_credentials}
use authserver_go.Store.Sessions
use authserver_go.Oidc.Http.{reply, is_reply}
use authserver_go.Oidc.Stores.{Stores}
use authserver_go.Oidc.ReturnUrl.{
  Destination, validate_return_url, validate_return_url-Destination, home_path,
}
use authserver_go.Oidc.Login.{
  Login, LoginBody, LoginRequest, LoginMoment, Served, serve, serve_body, unless_locked, attempt,
  sign_in, turn_away, hand_out, destination, refuse, new_session, lockout_key, record_auth,
  record_failed_login,
}

module _ (h : Login) (r : LoginRequest) (m : LoginMoment) (s : Stores) where
  -- The checks that stand before a session is opened.
  pub record Admitted (b : LoginBody) (info : UserInfo) : Type 0 where
    pub csrf : r.csrf ≡ true
    pub decoded : r.body ≡ some b
    pub named : trim_space b.username ≢ ""
    pub unlocked :
        (is_locked_out (lockout_key (trim_space b.username) r.ip) m.checked s.tracker).0 ≡ false
    pub proved :
        validate_credentials h.bcrypt s.users (trim_space b.username) b.password ≡ some info

  -- A request runs into a sign-in, or leaves the sessions alone and sets no cookie.
  abbrev Turned : Served → Type 0
  Turned out =
      ((is_reply out.0 ≡ false) × (out.1 ≡ none) × (out.2.sessions ≡ s.sessions))
      ⊎ ((b : LoginBody) × (info : UserInfo) × Admitted b info
          × (s1 : Stores) × (s1.sessions ≡ s.sessions)
          × (out ≡ sign_in h r m b (lockout_key (trim_space b.username) r.ip) info s1))

  record_failed_login-sessions :
      (username : String) (s1 : Stores)
      → (record_failed_login h r m username s1).sessions ≡ s1.sessions
  unfolding record_failed_login record_auth
  record_failed_login-sessions username s1 = ground arith

  -- A body whose fields are not empty, for a key that is not locked.
  attempt-Turned :
      (b : LoginBody) (s1 : Stores)
      → r.csrf ≡ true
      → r.body ≡ some b
      → trim_space b.username ≢ ""
      → (is_locked_out (lockout_key (trim_space b.username) r.ip) m.checked s.tracker).0 ≡ false
      → s1.users ≡ s.users
      → s1.sessions ≡ s.sessions
      → Turned
          (attempt h r m b (trim_space b.username) (lockout_key (trim_space b.username) r.ip) s1)
  unfolding attempt turn_away refuse
  attempt-Turned b s1 csrf decoded named unlocked users sessions =
      let name : String = trim_space b.username in
      elim (Option-cases (validate_credentials h.bcrypt s1.users name b.password)) [
        | inl wrong ↦
            rw (wrong, attempt) (inl (refl, refl, record_failed_login-sessions name _ ∙ sessions))
        | inr (info, right) ↦
            rw (right, attempt)
              (inr (
                b,
                info,
                record {
                  csrf = csrf;
                  decoded = decoded;
                  named = named;
                  unlocked = unlocked;
                  proved =
                      ap (λ u. validate_credentials h.bcrypt u name b.password) (sym users) ∙ right;
                },
                s1,
                sessions,
                refl,
              ))
      ]

  body-Turned :
      (b : LoginBody) → r.csrf ≡ true → r.body ≡ some b → Turned (serve_body h r m (some b) s)
  unfolding serve_body unless_locked refuse
  body-Turned b csrf decoded =
      let name : String = trim_space b.username in
      let key : String = lockout_key name r.ip in
      elim (Bool-cases (name == "" || b.password == "")) [
        | inl blank ↦ rw blank (inl (refl, refl, refl))
        | inr given ↦ elim (Bool-cases (is_locked_out key m.checked s.tracker).0) [
          | inl locked ↦ rw (given, locked) (inl (refl, refl, refl))
          | inr unlocked ↦
              rw (given, unlocked)
                (attempt-Turned b (record s { tracker = (is_locked_out key m.checked s.tracker).1 })
                  csrf decoded (ground (arith, given, eq_iff name "")) unlocked refl refl)
        ]
      ]

  -- A request that is posted with its CSRF header and a body that decodes is served by its body.
  serve-body :
      (b : LoginBody)
      → r.is_post ≡ true
      → r.csrf ≡ true
      → r.body ≡ some b
      → serve h r m s ≡ serve_body h r m (some b) s
  unfolding serve
  serve-body b post csrf decoded =
      ground (arith, post, csrf, ap (λ x. serve_body h r m x s) decoded)

  serve-early :
      (r.is_post && r.csrf && is_some r.body) ≡ false
      → (is_reply (serve h r m s).0 ≡ false)
        × ((serve h r m s).1 ≡ none)
        × ((serve h r m s).2.sessions ≡ s.sessions)
  unfolding serve serve_body refuse
  serve-early e = elim (Option-cases r.body) [
    | inl empty ↦ (ground (arith, e, empty), ground (arith, e, empty), ground (arith, e, empty))
    | inr (b, decoded) ↦
        (ground (arith, e, decoded), ground (arith, e, decoded), ground (arith, e, decoded))
  ]

  serve-Turned : Turned (serve h r m s)
  serve-Turned = elim (Option-cases r.body) [
    | inl empty ↦ inl (serve-early (ground (arith, empty)))
    | inr (b, decoded) ↦ elim (Bool-cases (r.is_post && r.csrf)) [
      | inr not_yet ↦ inl (serve-early (ground (arith, not_yet)))
      | inl passed ↦
          subst Turned
            (sym (serve-body b (ground (arith, passed)) (ground (arith, passed)) decoded))
            (body-Turned b (ground (arith, passed)) decoded)
    ]
  ]

-- A sign-in that changes the sessions or sets a cookie has passed its checks: the CSRF header, a body
-- with a user name that is not blank, a key of name and address that is not locked out, and the
-- password of an account. So nobody gets a session without one.
pub login_needs_password :
    (h : Login) (r : LoginRequest) (m : LoginMoment) (s : Stores)
    → ((serve h r m s).1 ≡ none) × ((serve h r m s).2.sessions ≡ s.sessions)
      ⊎ ((b : LoginBody) × (info : UserInfo) × Admitted h r m s b info)
login_needs_password h r m s = elim (serve-Turned h r m s) [
  | inl (_, no_cookie, same) ↦ inl (no_cookie, same)
  | inr (b, info, a, _, _, _) ↦ inr (b, info, a)
]

-- What an answered sign-in leaves: the new session under its id, no failures for the key, and an
-- address on the server itself to go on to, the home page where the client named none.
pub record SignedIn (h : Login) (r : LoginRequest) (m : LoginMoment) (s' : Stores) (b : LoginBody)
    (info : UserInfo) (target : String) (set_cookie : Option String) : Type 0 where
  pub session : lookup m.session_id s'.sessions.sessions ≡ some (new_session h m info)
  pub cookie : set_cookie ≡ h.encode m.session_id
  pub cleared : lookup (lockout_key (trim_space b.username) r.ip) s'.tracker.attempts ≡ none
  pub onward :
      (t : String) × Destination h.paths b.return_url t
      × (target ≡ (if t == "" then home_path else t))

hand_out-SignedIn :
    (h : Login) (r : LoginRequest) (m : LoginMoment) (b : LoginBody) (info : UserInfo)
    (s1 s' : Stores) (target : String) (cookie : Option String)
    → sign_in h r m b (lockout_key (trim_space b.username) r.ip) info s1
      ≡ (reply target, cookie, s')
    → SignedIn h r m s' b info target cookie
unfolding sign_in hand_out destination record_auth refuse reset Sessions.store
hand_out-SignedIn h r m b info s1 s' target cookie e = elim (Option-cases (h.encode m.session_id)) [
  | inl broken ↦ absurd (ground (arith, e, broken))
  | inr (value, encoded) ↦ elim (Option-cases (validate_return_url h.paths b.return_url)) [
    | inl bad ↦ absurd (ground (arith, e, encoded, bad))
    | inr (t, valid) ↦ record {
      session = ground (
        arith,
        e,
        encoded,
        valid,
        lookup-insert_self m.session_id (new_session h m info) s1.sessions.sessions,
      );
      cookie = ground (arith, e, encoded);
      cleared = ground (
        arith,
        e,
        encoded,
        valid,
        lookup-erase (lockout_key (trim_space b.username) r.ip)
            (lockout_key (trim_space b.username) r.ip) s1.tracker.attempts,
        beq_refl (lockout_key (trim_space b.username) r.ip),
      );
      onward = (
        t,
        validate_return_url-Destination h.paths b.return_url t valid,
        ground (arith, e, encoded, valid),
      );
    }
  ]
]

-- A sign-in that is answered with an address has passed its checks, stores the new session of the
-- account with its lifetime, sets its cookie, forgets the failures of the key, and sends the browser to
-- a destination on the server itself.
pub login_opens_session :
    (h : Login) (r : LoginRequest) (m : LoginMoment) (s s' : Stores) (target : String)
    (cookie : Option String)
    → serve h r m s ≡ (reply target, cookie, s')
    → (b : LoginBody) × (info : UserInfo) × Admitted h r m s b info
      × SignedIn h r m s' b info target cookie
login_opens_session h r m s s' target cookie e = elim (serve-Turned h r m s) [
  | inl (refused, _, _) ↦ absurd (cc (sym refused ∙ ap (λ out. is_reply out.0) e))
  | inr (b, info, a, s1, _, shape) ↦
      (b, info, a, hand_out-SignedIn h r m b info s1 s' target cookie (sym shape ∙ e))
]
