-- ===== src/Store/RefreshTokens/Laws.antt =====
-- What each method of the in-memory RefreshTokenStore does to each row, and that the store keeps its
-- two maps in step.
use authserver_go.Base.{
  String, ◌≡◌, refl, ◌∙◌, ap, true, false, Option, none, some, ◌==◌, string_eq, nat_eq, nat_beq_iff,
  arith, if◌then◌else◌, is_some, Bool-cases, ne→not_beq, sym, ◌≢◌, Option-cases, inl, inr, map_some,
}
use authserver_go.Base.Assoc.{lookup-insert_self, lookup, lookup-insert, lookup-update_all}
use authserver_go.Domain.Time.{Time, Uuid}
use authserver_go.Domain.Entities.{RefreshToken}
use authserver_go.Store.Error.{ok, err, not_found}
use authserver_go.Store.RefreshTokens.{
  RefreshTokenStore, store, find_by_hash, mark_consumed, revoke, revoke_in, revoke_by_session_id,
}

abbrev pub row : RefreshTokenStore → Uuid → Option RefreshToken
row s id = lookup id s.tokens

abbrev pub consumed_row : RefreshTokenStore → Uuid → Option (Option Time)
consumed_row s id = map_some (λ (t : RefreshToken). t.consumed_at) (row s id)

-- Each hash leads to a row, and each row stands under its own id.
pub record IsIndexed (s : RefreshTokenStore) : Type 0 where
  pub hash_leads :
      (hash : String) (id : Uuid) → lookup hash s.by_hash ≡ some id → is_some (row s id) ≡ true
  pub id_keys : (id : Uuid) (t : RefreshToken) → row s id ≡ some t → t.id ≡ id

module _ (s : RefreshTokenStore) where
  pub row-store :
      (t : RefreshToken) (j : Uuid)
      → (t.token_hash == "") ≡ false
      → row (store (some t) s).1 j ≡ (if t.id == j then some t else row s j)
  unfolding store
  row-store t j h = rw h (lookup-insert t.id j t s.tokens)

  pub row-mark_consumed :
      (id j : Uuid) (at : Time) (t : RefreshToken)
      → row s id ≡ some t
      → t.consumed_at ≡ none
      → row (mark_consumed id at s).1 j
        ≡ (if id == j then some (record t { consumed_at = some at }) else row s j)
  unfolding mark_consumed
  row-mark_consumed id j at t e c =
      rw (e, mark_consumed, c) (lookup-insert id j (record t { consumed_at = some at }) s.tokens)

  pub mark_consumed_first :
      (id : Uuid) (at : Time) (t : RefreshToken)
      → row s id ≡ some t
      → t.consumed_at ≡ none
      → (mark_consumed id at s).0 ≡ ok true
  unfolding mark_consumed
  mark_consumed_first id at t e c = rw (e, mark_consumed, c)

  pub mark_consumed_again :
      (id : Uuid) (at used : Time) (t : RefreshToken)
      → row s id ≡ some t
      → t.consumed_at ≡ some used
      → mark_consumed id at s ≡ (ok false, s)
  unfolding mark_consumed
  mark_consumed_again id at used t e c = rw (e, mark_consumed, c)

  pub mark_consumed_missing :
      (id : Uuid) (at : Time) → row s id ≡ none → mark_consumed id at s ≡ (err not_found, s)
  unfolding mark_consumed
  mark_consumed_missing id at e = rw (e, mark_consumed)

  pub row-revoke_by_session_id :
      (session : Uuid) (at : Time) (j : Uuid)
      → row (revoke_by_session_id session at s).1 j ≡ map_some (revoke_in session at) (row s j)
  unfolding revoke_by_session_id
  row-revoke_by_session_id session at j = lookup-update_all (revoke_in session at) j s.tokens

-- The row that Revoke leaves.
abbrev pub revoked_row : Time → RefreshToken → RefreshToken
revoked_row at t = if is_some t.revoked_at then t else record t { revoked_at = some at }

pub row-revoke :
    (s : RefreshTokenStore) (id j : Uuid) (at : Time)
    → row (revoke id at s).1 j ≡ (if id == j then map_some (revoked_row at) (row s j) else row s j)
unfolding revoke
row-revoke s id j at = elim (Option-cases (lookup id s.tokens)) [
  | inl e ↦ rw (e, revoke) (ground (arith, e, nat_beq_iff id j))
  | inr (t, e) ↦
      rw (e, revoke)
        (ground (
          arith,
          e,
          nat_beq_iff id j,
          lookup-insert id j (record t { revoked_at = some at }) s.tokens,
        ))
]

-- In an indexed store, what FindByHash returns is a row, under its own id.
pub find_by_hash-row :
    (s : RefreshTokenStore) (hash : String) (t : RefreshToken)
    → IsIndexed s
    → find_by_hash s hash ≡ ok t
    → row s t.id ≡ some t
unfolding find_by_hash
find_by_hash-row s hash t v h = go (lookup hash s.by_hash) refl
  where
    at_id : (id : Uuid) → lookup hash s.by_hash ≡ some id → row s id ≡ some t
    at_id id p = ground (arith, p, h, v.hash_leads hash id p)

    go : (o : Option Uuid) → lookup hash s.by_hash ≡ o → row s t.id ≡ some t
    go none p = absurd (ground (arith, p, h))
    go (some id) p = ap (row s) (v.id_keys id t (at_id id p)) ∙ at_id id p

-- The winner of MarkConsumed found the row unconsumed.
pub mark_consumed_won :
    (s : RefreshTokenStore) (id : Uuid) (at : Time) (t : RefreshToken)
    → row s id ≡ some t
    → (mark_consumed id at s).0 ≡ ok true
    → t.consumed_at ≡ none
mark_consumed_won s id at t e w = elim (Option-cases t.consumed_at) [
  | inl c ↦ c
  | inr (used, c) ↦ absurd (lost used c)
]
  where
    lost : (used : Time) → t.consumed_at ≡ some used → ⊥
    lost used c = cc (w, mark_consumed_again s id at used t e c)

-- And the index leads to that id.
pub find_by_hash-index :
    (s : RefreshTokenStore) (hash : String) (t : RefreshToken)
    → IsIndexed s
    → find_by_hash s hash ≡ ok t
    → lookup hash s.by_hash ≡ some t.id
unfolding find_by_hash
find_by_hash-index s hash t v h = go (lookup hash s.by_hash) refl
  where
    at_id : (id : Uuid) → lookup hash s.by_hash ≡ some id → row s id ≡ some t
    at_id id p = ground (arith, p, h, v.hash_leads hash id p)

    go : (o : Option Uuid) → lookup hash s.by_hash ≡ o → lookup hash s.by_hash ≡ some t.id
    go none p = absurd (ground (arith, p, h))
    go (some id) p = p ∙ ap some (sym (v.id_keys id t (at_id id p)))

pub find_by_hash_at :
    (s : RefreshTokenStore) (hash : String) (id : Uuid) (t : RefreshToken)
    → lookup hash s.by_hash ≡ some id
    → row s id ≡ some t
    → find_by_hash s hash ≡ ok t
unfolding find_by_hash
find_by_hash_at s hash id t p e = ground (arith, p, e)

pub by_hash-mark_consumed :
    (s : RefreshTokenStore) (id : Uuid) (at : Time) → (mark_consumed id at s).1.by_hash ≡ s.by_hash
unfolding mark_consumed
by_hash-mark_consumed s id at = ground arith

-- A Store leaves the index alone but at its own hash.
pub by_hash-store :
    (s : RefreshTokenStore) (t : RefreshToken) (hash : String)
    → t.token_hash ≢ hash
    → lookup hash (store (some t) s).1.by_hash ≡ lookup hash s.by_hash
unfolding store
by_hash-store s t hash ne = elim (Bool-cases (t.token_hash == "")) [
  | inl blank ↦ rw blank
  | inr named ↦
      rw named
        (lookup-insert t.token_hash hash t.id s.by_hash ∙ rw (ne→not_beq t.token_hash hash ne))
]

-- A stored row is found by its hash.
pub find_by_hash-store :
    (s : RefreshTokenStore) (t : RefreshToken)
    → (t.token_hash == "") ≡ false
    → find_by_hash (store (some t) s).1 t.token_hash ≡ ok t
unfolding find_by_hash store
find_by_hash-store s t named = ground (
  arith,
  named,
  lookup-insert_self t.token_hash t.id s.by_hash,
  lookup-insert_self t.id t s.tokens,
)
