-- ===== src/Oidc/Register/RoundTrip.antt =====
-- An account that was registered can sign in.
use authserver_go.Base.{
  String, ◌≡◌, refl, sym, ap, ◌∙◌, Bool, true, not, none, some, [], ◌∷◌, string_eq, arith,
  Option-cases, inl, inr, some_inj, subst,
}
use authserver_go.Base.Assoc.{Assoc, lookup, insert, lookup-insert_self}
use authserver_go.Base.Text.{trim_space, equal_fold}
use authserver_go.Domain.Time.{Time}
use authserver_go.Domain.Entities.{User}
use authserver_go.Store.Users.{
  Bcrypt, UserStore, UserResult, done, failed, store_error, hash_error, create_user,
  validate_credentials, first_user, identifies, build_claims_map,
}
use authserver_go.Store.Error.{duplicate, not_found, nil_entity, empty_id, empty_hash}
use authserver_go.Oidc.Http.{
  reply, pass, refuse_if, some_or, finish_at-reply, >>=-pass, some_or-pass, bad_request, forbidden,
  method_not_allowed,
}
use authserver_go.Oidc.Register.{
  Register, RegisterBody, RegisterRequest, present, new_user, answer, serve, check_body, refuse_as,
  register_error_label,
}

-- A new account stands behind all others, so a test that no other passes picks it.
first_user-insert :
    (p : User → Bool) (u : User) (m : Assoc String User)
    → first_user p m ≡ none
    → lookup u.id m ≡ none
    → p u ≡ true
    → first_user p (insert u.id u m) ≡ some u
unfolding first_user insert lookup
first_user-insert p u [] e new fits = ground (arith, fits)
first_user-insert p u ((id, v) ∷ m) e new fits =
    ground (arith, e, new, fits, first_user-insert p u m)

create_user-done :
    (b : Bcrypt) (u : User) (password : String) (s : UserStore)
    → (create_user b u password s).0 ≡ done
    → (hash : String) × (b.generate password ≡ some hash)
      × (lookup u.id s.users ≡ none)
      × ((create_user b u password s).1 ≡ record s {
        users = insert u.id (record u { password_hash = "" }) s.users;
        hashes = insert u.id hash s.hashes;
      })
unfolding create_user
create_user-done b u password s h = elim (Option-cases (b.generate password)) [
  | inl failure ↦ absurd (ground (arith, h, failure))
  | inr (hash, made) ↦ (
    hash,
    made,
    elim (Option-cases (lookup u.id s.users)) [
      | inl new ↦ new
      | inr (v, taken) ↦ absurd (ground (arith, h, made, taken))
    ],
    ground (arith, h, made),
  )
]

equal_fold_refl : (t : String) → equal_fold t t ≡ true
unfolding equal_fold
equal_fold_refl String.[] = refl
equal_fold_refl (String.◌∷◌ c t) = ground (arith, equal_fold_refl t)

-- What an account can sign in with, once it is created.
create_user-validate_credentials :
    (b : Bcrypt) (u : User) (name password : String) (s s' : UserStore)
    → ((pw hash : String) → b.generate pw ≡ some hash → b.matches hash pw ≡ true)
    → create_user b u password s ≡ (done, s')
    → first_user (identifies name) s.users ≡ none
    → u.username ≡ name
    → validate_credentials b s' name password
      ≡ some (record { user_id = u.id; claims = build_claims_map s' u.id })
unfolding validate_credentials identifies
create_user-validate_credentials b u name password s s' checks h free named =
    let (hash, made, new, shape) = create_user-done b u password s (ap (λ x. x.0) h) in
    let users : s'.users ≡ insert u.id (record u { password_hash = "" }) s.users =
      sym (ap (λ x. x.1.users) h) ∙ ap (λ (x : UserStore). x.users) shape in
    let hashes : s'.hashes ≡ insert u.id hash s.hashes =
      sym (ap (λ x. x.1.hashes) h) ∙ ap (λ (x : UserStore). x.hashes) shape in
    let picked : first_user (identifies name) s'.users ≡ some (record u { password_hash = "" }) =
      ap (first_user (identifies name)) users
      ∙ first_user-insert (identifies name) (record u { password_hash = "" }) s.users free new
          (unfold identifies in
            ground (arith, ap (λ t. equal_fold t name) named ∙ equal_fold_refl name)) in
    let stored : lookup u.id s'.hashes ≡ some hash =
      ap (lookup u.id) hashes ∙ lookup-insert_self u.id hash s.hashes in
    ground (arith, picked, stored, checks password hash made)

present-body : (r : RegisterRequest) (b : RegisterBody) → present r ≡ pass b → r.body ≡ some b
unfolding present
present-body r b e =
    let (_, _, e1) =
      >>=-pass (refuse_if (not r.is_post) method_not_allowed "invalid_request" "method not allowed")
        _ b e in
    let (_, _, e2) = >>=-pass (refuse_as (not r.csrf) forbidden "antiforgery_failed") _ b e1 in
    let (x, found, e3) =
      >>=-pass (some_or r.body bad_request "missing_fields" (register_error_label "missing_fields"))
        _ b e2 in
    let (_, _, e4) = >>=-pass (check_body x) _ b e3 in
    some_or-pass r.body bad_request "missing_fields" (register_error_label "missing_fields") x found
    ∙ ap some (cc e4)

answer-done :
    (h : Register) (b : RegisterBody) (o : UserResult) (target : String)
    → answer h b o ≡ reply target
    → o ≡ done
unfolding answer
answer-done h b done target e = refl
answer-done h b (failed (store_error duplicate)) target e = cc
answer-done h b (failed (store_error not_found)) target e = cc
answer-done h b (failed (store_error nil_entity)) target e = cc
answer-done h b (failed (store_error empty_id)) target e = cc
answer-done h b (failed (store_error empty_hash)) target e = cc
answer-done h b (failed hash_error) target e = cc

-- Registering and signing in fit together: once a registration is answered with an address, the user
-- name and the password that were sent are the credentials of the new account. Before, the name was
-- neither the id nor the name nor the address of an account; and bcrypt takes a password for the hash
-- that it made of it.
pub register_then_sign_in :
    (h : Register) (r : RegisterRequest) (b : RegisterBody) (id : String) (now : Time)
    (s s' : UserStore) (target : String)
    → ((pw hash : String) → h.bcrypt.generate pw ≡ some hash → h.bcrypt.matches hash pw ≡ true)
    → r.body ≡ some b
    → first_user (identifies (trim_space b.username)) s.users ≡ none
    → serve h r id now s ≡ (reply target, s')
    → validate_credentials h.bcrypt s' (trim_space b.username) b.password
      ≡ some (record { user_id = id; claims = build_claims_map s' id })
unfolding serve
register_then_sign_in h r b id now s s' target checks decoded free e =
    let (x, passed, e') = finish_at-reply s (present r) _ target s' e in
    let same : x ≡ b = some_inj x b (sym (present-body r x passed) ∙ decoded) in
    let outcome : (create_user h.bcrypt (new_user id now x) x.password s).0 ≡ done =
      answer-done h x (create_user h.bcrypt (new_user id now x) x.password s).0 target
        (ap (λ y. y.0) e') in
    let made : create_user h.bcrypt (new_user id now b) b.password s ≡ (done, s') =
      subst (λ y. create_user h.bcrypt (new_user id now y) y.password s ≡ (done, s')) same
        (cc (outcome, ap (λ y. y.1) e')) in
    create_user-validate_credentials h.bcrypt (new_user id now b) (trim_space b.username) b.password
      s s' checks made free refl
