-- ===== src/Store/PasswordResets/Laws.antt =====
-- The single use of a reset token, and the clean-up of PasswordResetStore.
use authserver_go.Base.{
  ℕ, ◌+◌, ◌≤◌, ◌<◌, String, ◌≡◌, refl, ◌∙◌, ap, sym, true, false, Option, none, some, [], ◌∷◌,
  string_eq, nat_eq, eq_iff, arith, nat_beq_iff, map_some, length, Option-cases, Bool-cases, inl,
  inr, All, ltb, not_ltb→le, subst,
}
use authserver_go.Base.Assoc.{Assoc, lookup, insert, lookup-insert_self, lookup-update_all}
use authserver_go.Domain.Time.{Time, Uuid}
use authserver_go.Domain.Entities.{PasswordResetToken}
use authserver_go.Store.Error.{ok, ok_inj}
use authserver_go.Store.PasswordResets.{
  PasswordResetStore, consume, invalidate, invalidate_for_user, delete_loop, delete_expired,
}

abbrev pub row : PasswordResetStore → Uuid → Option PasswordResetToken
row s id = lookup id s.tokens

module _ (s : PasswordResetStore) (id : Uuid) (now : Time) where
  -- The winner of Consume found a token that was unused and not expired, and it is used afterwards.
  pub consume_won :
      (consume id now s).0 ≡ ok true
      → (t : PasswordResetToken) × (row s id ≡ some t)
        × (t.consumed_at ≡ none)
        × (now < t.expires_at)
        × (row (consume id now s).1 id ≡ some (record t { consumed_at = some now }))
  unfolding consume
  consume_won w = elim (Option-cases (row s id)) [
    | inl n ↦ absurd (ground (arith, n, w))
    | inr (t, e) ↦ elim (Option-cases t.consumed_at) [
      | inl fresh ↦
          let live : now < t.expires_at = ground (arith, e, fresh, w) in
          (
            t,
            e,
            fresh,
            live,
            ground (
              arith,
              e,
              fresh,
              live,
              lookup-insert_self id (record t { consumed_at = some now }) s.tokens,
            ),
          )
      | inr (used, u) ↦ absurd (ground (arith, e, u, w))
    ]
  ]

  pub tokens-consume_won :
      (t : PasswordResetToken)
      → (consume id now s).0 ≡ ok true
      → row s id ≡ some t
      → (consume id now s).1.tokens ≡ insert id (record t { consumed_at = some now }) s.tokens
  unfolding consume
  tokens-consume_won t w e = ground (arith, w, e)

  pub consume_used :
      (t : PasswordResetToken) (used : Time)
      → row s id ≡ some t
      → t.consumed_at ≡ some used
      → consume id now s ≡ (ok false, s)
  unfolding consume
  consume_used t used e u = rw (e, consume, u)

  pub row-invalidate_for_user :
      (user : String)
      → row (invalidate_for_user user now s).1 id ≡ map_some (invalidate user now) (row s id)
  unfolding invalidate_for_user
  row-invalidate_for_user user = lookup-update_all (invalidate user now) id s.tokens

  -- After InvalidateForUser, no token of that user can be consumed, at any time.
  pub invalidated_not_consumed :
      (user : String) (t : PasswordResetToken) (later : Time)
      → row s id ≡ some t
      → t.user_id ≡ user
      → (consume id later (invalidate_for_user user now s).1).0 ≡ ok false
  unfolding consume invalidate
  invalidated_not_consumed user t later e own =
      ground (arith, row-invalidate_for_user user, e, eq_iff t.user_id user)

module _ (cutoff : Time) where
  live_left :
      (m : Assoc Uuid PasswordResetToken)
      → All (λ e. cutoff ≤ e.1.expires_at) (delete_loop cutoff m).0
  unfolding delete_loop
  live_left [] = tt
  live_left ((id, t) ∷ m) = elim (Bool-cases (ltb t.expires_at cutoff)) [
    | inl gone ↦ rw (gone, delete_loop) (live_left m)
    | inr live ↦ rw (live, delete_loop) (not_ltb→le t.expires_at cutoff live, live_left m)
  ]

  dropped_counted :
      (m : Assoc Uuid PasswordResetToken)
      → length (delete_loop cutoff m).0 + (delete_loop cutoff m).1 ≡ length m
  unfolding delete_loop
  dropped_counted [] = refl
  dropped_counted ((id, t) ∷ m) = ground (arith, dropped_counted m)

  live_kept :
      (id : Uuid) (t : PasswordResetToken) (m : Assoc Uuid PasswordResetToken)
      → lookup id m ≡ some t
      → cutoff ≤ t.expires_at
      → lookup id (delete_loop cutoff m).0 ≡ some t
  unfolding delete_loop lookup
  live_kept id t [] e live = absurd (cc e)
  live_kept id t ((i, u) ∷ m) e live = ground (arith, nat_beq_iff i id, live_kept id t m)

  -- DeleteExpired leaves only tokens that expire at the cutoff or later, leaves each such token where
  -- it was, and answers the number of rows that it dropped.
  pub delete_expired_lem :
      (s s' : PasswordResetStore) (n : ℕ)
      → delete_expired cutoff s ≡ (ok n, s')
      → All (λ e. cutoff ≤ e.1.expires_at) s'.tokens
        × (length s'.tokens + n ≡ length s.tokens)
        × ((id : Uuid) (t : PasswordResetToken)
            → row s id ≡ some t
            → cutoff ≤ t.expires_at
            → row s' id ≡ some t)
  unfolding delete_expired
  delete_expired_lem s s' n h =
      let m : Assoc Uuid PasswordResetToken = (delete_loop cutoff s.tokens).0 in
      let kept : m ≡ s'.tokens = ap (λ r. r.1.tokens) h in
      let counted : (delete_loop cutoff s.tokens).1 ≡ n =
        ok_inj (delete_loop cutoff s.tokens).1 n (ap (λ r. r.0) h) in
      (
        subst (All (λ e. cutoff ≤ e.1.expires_at)) kept (live_left s.tokens),
        ap (λ x. length x + n) (sym kept)
            ∙ ap (λ k. length m + k) (sym counted)
            ∙ dropped_counted s.tokens,
        λ id t e live. ap (lookup id) (sym kept) ∙ live_kept id t s.tokens e live,
      )
