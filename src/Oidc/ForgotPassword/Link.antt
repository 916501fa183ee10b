-- ===== src/Oidc/ForgotPassword/Link.antt =====
-- A link that is mailed opens the reset page until it expires, and what a stranger sees of a request.
use authserver_go.Base.{
  ◌<◌, String, ◌≡◌, ◌≢◌, refl, ap, ◌∙◌, true, false, none, some, [], ◌∷◌, string_eq, nat_eq, eq_iff,
  arith, map_some,
}
use authserver_go.Base.Assoc.{Assoc, insert}
use authserver_go.Base.{◌-◌}
use authserver_go.Base.Int.{negsuc}
use authserver_go.Domain.Time.{Time, Uuid, add}
use authserver_go.Domain.Entities.{PasswordResetToken, User}
use authserver_go.Store.Error.{ok}
use authserver_go.Store.PasswordResets.{
  PasswordResetStore, first_with, find_by_hash, create, invalidate, invalidate_for_user,
  delete_loop, delete_expired,
}
use authserver_go.Store.PasswordResets.Keyed.{first_with-update_all}
use authserver_go.Token.Crypto.{hash_token, new_opaque_token}
use authserver_go.Oidc.Http.{reply, pass}
use authserver_go.Oidc.Stores.{Stores}
use authserver_go.Oidc.ResetPassword
use authserver_go.Oidc.ResetPassword.{ResetPassword}
use authserver_go.Oidc.ForgotPassword.{
  ForgotPassword, ForgotRequest, ForgotMoment, Message, present, find_user, reset_token, throttle,
  email_body, issue_link, created, mail_link, process_user, retention, process, serve,
}

abbrev Rows : Type 0
Rows = Assoc Uuid PasswordResetToken

-- A hash that no row has.
first_with-delete_loop :
    (hash : String) (cutoff : Time) (m : Rows)
    → first_with hash m ≡ none
    → first_with hash (delete_loop cutoff m).0 ≡ none
unfolding first_with delete_loop
first_with-delete_loop hash cutoff [] e = refl
first_with-delete_loop hash cutoff ((id, t) ∷ m) e =
    ground (arith, e, first_with-delete_loop hash cutoff m)

-- A row with a new hash is found by it.
first_with-insert_new :
    (id : Uuid) (t : PasswordResetToken) (m : Rows)
    → first_with t.token_hash m ≡ none
    → first_with t.token_hash (insert id t m) ≡ some t
unfolding first_with insert
first_with-insert_new id t [] e = ground (arith, eq_iff t.token_hash t.token_hash)
first_with-insert_new id t ((i, u) ∷ m) e =
    ground (arith, e, eq_iff t.token_hash t.token_hash, first_with-insert_new id t m)

invalidate-hash :
    (user : String) (now : Time) (t : PasswordResetToken)
    → (invalidate user now t).token_hash ≡ t.token_hash
unfolding invalidate
invalidate-hash user now t = ground arith

module _ (h : ForgotPassword) (r : ForgotRequest) (m : ForgotMoment) (user : User)
    (raw : String) where
  abbrev hash : String
  hash = hash_token h.crypto raw

  -- The rows that a request leaves behind its new one.
  abbrev older : PasswordResetStore → PasswordResetStore
  older s = (invalidate_for_user user.id m.now s).1

  older-none :
      (s : PasswordResetStore)
      → first_with hash s.tokens ≡ none
      → first_with hash (older s).tokens ≡ none
  unfolding invalidate_for_user
  older-none s e =
      first_with-update_all hash (invalidate user.id m.now) s.tokens (invalidate-hash user.id m.now)
      ∙ ap (map_some (invalidate user.id m.now)) e

  create-new :
      (s : PasswordResetStore)
      → hash ≢ ""
      → first_with hash s.tokens ≡ none
      → create (some (reset_token h m user hash)) s
        ≡ (ok tt, record { tokens = insert m.token_id (reset_token h m user hash) s.tokens })
  unfolding create
  create-new s named new = ground (arith, eq_iff hash "", new)

  issue_link-sends :
      (s : Stores)
      → hash ≢ ""
      → first_with hash s.resets.tokens ≡ none
      → (msg : Message) × (s' : Stores) × (issue_link h r m user (some (raw, hash)) s
          ≡ (some msg, s'))
        × (msg.to ≡ user.email)
        × (msg.body ≡ email_body h raw)
        × (first_with hash s'.resets.tokens ≡ some (reset_token h m user hash))
  unfolding issue_link created mail_link
  issue_link-sends s named new =
      let made = create-new (older s.resets) named (older-none s.resets new) in
      let rows : Rows = insert m.token_id (reset_token h m user hash) (older s.resets).tokens in
      let s1 : Stores = record s { resets = record { tokens = rows } } in
      (
        record { to = user.email; subject = "Reset your password"; body = email_body h raw },
        (mail_link h r m user raw s1).1,
        ground (arith, made),
        refl,
        refl,
        ground (
          arith,
          first_with-insert_new m.token_id (reset_token h m user hash) (older s.resets).tokens
              (older-none s.resets new),
        ),
      )

  -- A request for an account that can get mail, which the throttle lets through.
  process-sends :
      (identifier : String) (s : Stores)
      → find_user s.users identifier ≡ some user
      → user.email ≢ ""
      → (throttle h m user s.tracker).0 ≡ false
      → m.random ≡ some raw
      → hash ≢ ""
      → first_with hash s.resets.tokens ≡ none
      → (msg : Message) × (s' : Stores) × (process h r m identifier s ≡ (some msg, s'))
        × (msg.to ≡ user.email)
        × (msg.body ≡ email_body h raw)
        × (first_with hash s'.resets.tokens ≡ some (reset_token h m user hash))
  unfolding process process_user new_opaque_token delete_expired
  process-sends identifier s found mailed let_in drawn named new =
      let kept : Rows = (delete_loop (add m.now (negsuc (retention - 1))) s.resets.tokens).0 in
      let s1 : Stores = record s {
        resets = record { tokens = kept };
        tracker = (throttle h m user s.tracker).1;
      } in
      let (msg, s', e, to, text, at) =
        issue_link-sends s1 named
          (first_with-delete_loop hash (add m.now (negsuc (retention - 1))) s.resets.tokens new) in
      (msg, s', ground (arith, found, mailed, let_in, drawn, e, eq_iff user.email ""), to, text, at)

-- What the reset page says of a token that is stored, unused and not expired.
handle_get-live :
    (g : ResetPassword) (resets : PasswordResetStore) (raw : String) (t : PasswordResetToken)
    (later : Time)
    → raw ≢ ""
    → first_with (hash_token g.crypto raw) resets.tokens ≡ some t
    → t.consumed_at ≡ none
    → later < t.expires_at
    → ResetPassword.handle_get g resets raw later ≡ true
unfolding ResetPassword.handle_get ResetPassword.lookup_token ResetPassword.usable find_by_hash
handle_get-live g resets raw t later given found unused early =
    ground (arith, found, unused, early, given, eq_iff raw "")

-- A request with its CSRF header whose identifier is the name or the address of an account that has
-- an email address, and which the throttle lets through, mails that account a link; and until the
-- lifetime of the link is over, the reset page takes its token for valid, if the stores stay as they
-- are. The token is drawn, its hash is not empty, and no stored row has that hash.
pub forgot_link_works :
    (h : ForgotPassword) (g : ResetPassword) (r : ForgotRequest) (m : ForgotMoment) (user : User)
    (raw identifier : String) (s : Stores)
    → g.crypto ≡ h.crypto
    → present r ≡ pass identifier
    → find_user s.users identifier ≡ some user
    → user.email ≢ ""
    → (throttle h m user s.tracker).0 ≡ false
    → m.random ≡ some raw
    → raw ≢ ""
    → hash_token h.crypto raw ≢ ""
    → first_with (hash_token h.crypto raw) s.resets.tokens ≡ none
    → (msg : Message) × (s' : Stores) × (serve h r m s ≡ (reply true, (some msg, s')))
      × (msg.to ≡ user.email)
      × (msg.body ≡ email_body h raw)
      × ((later : Time)
          → later < add m.now h.token_lifetime
          → ResetPassword.handle_get g s'.resets raw later ≡ true)
unfolding serve
forgot_link_works h g r m user raw identifier s same passed found mailed let_in drawn given named
      new =
    let (msg, s', e, to, text, at) =
      process-sends h r m user raw identifier s found mailed let_in drawn named new in
    (
      msg,
      s',
      ground (arith, passed, e),
      to,
      text,
      λ later early.
          handle_get-live g s'.resets raw (reset_token h m user (hash_token h.crypto raw)) later
            given (ap (λ c. first_with (hash_token c raw) s'.resets.tokens) same ∙ at) refl early,
    )

-- The answer to a request is the same whatever the stores hold and whatever is drawn, so the form does
-- not tell which accounts exist.
pub forgot_tells_nothing :
    (h : ForgotPassword) (r : ForgotRequest) (m m' : ForgotMoment) (s t : Stores)
    → (serve h r m s).0 ≡ (serve h r m' t).0
unfolding serve
forgot_tells_nothing h r m m' s t = ground arith
