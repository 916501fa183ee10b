-- ===== src/Store/PasswordResets.antt =====
-- internal/store/memory/password_reset.go: PasswordResetStore.
pub mod Laws
pub mod Keyed
use authserver_go.Base.{
  ℕ, ◌+◌, String, Bool, true, false, ◌&&◌, ◌||◌, not, Option, none, some, List, [], ◌∷◌, ◌==◌,
  string_eq, nat_eq, if◌then◌else◌, is_some, is_none,
}
use authserver_go.Base.Assoc.{Assoc, lookup, insert, update_all}
use authserver_go.Domain.Time.{Time, Uuid, before}
use authserver_go.Domain.Entities.{PasswordResetToken}
use authserver_go.Store.Error.{
  Result, ok, err, Update, not_found, duplicate, nil_entity, empty_hash,
}

pub record PasswordResetStore : Type 0 where
  pub tokens : Assoc Uuid PasswordResetToken

abbrev pub new : PasswordResetStore
new = record { tokens = [] }

-- The loops over the map that look for a hash.
unfoldable pub first_with : String → Assoc Uuid PasswordResetToken → Option PasswordResetToken
first_with hash [] = none
first_with hash ((id, t) ∷ m) = if t.token_hash == hash then some t else first_with hash m

unfoldable pub create : Option PasswordResetToken → Update PasswordResetStore Unit
unfolding first_with
create none s = (err nil_entity, s)
create (some t) s =
    if t.token_hash == ""
    then (err empty_hash, s)
    else if is_some (first_with t.token_hash s.tokens)
    then (err duplicate, s)
    else (ok tt, record { tokens = insert t.id t s.tokens })

unfoldable pub find_by_hash : PasswordResetStore → String → Result PasswordResetToken
unfolding first_with
find_by_hash s hash = elim (first_with hash s.tokens) [ none ↦ err not_found | some t ↦ ok t ]

unfoldable pub consume : Uuid → Time → Update PasswordResetStore Bool
consume id now s = elim (lookup id s.tokens) [
  | none ↦ (ok false, s)
  | some t ↦
      if is_some t.consumed_at || not (before now t.expires_at)
      then (ok false, s)
      else (ok true, record { tokens = insert id (record t { consumed_at = some now }) s.tokens })
]

unfoldable pub invalidate : String → Time → PasswordResetToken → PasswordResetToken
invalidate user now t =
    if t.user_id == user && is_none t.consumed_at then record t { consumed_at = some now } else t

unfoldable pub invalidate_for_user : String → Time → Update PasswordResetStore Unit
unfolding invalidate
invalidate_for_user user now s =
    (ok tt, record { tokens = update_all (invalidate user now) s.tokens })

-- The loop of DeleteExpired, which deletes while it ranges, with its counter.
unfoldable pub delete_loop :
    Time → Assoc Uuid PasswordResetToken → Assoc Uuid PasswordResetToken × ℕ
delete_loop cutoff [] = ([], 0)
delete_loop cutoff ((id, t) ∷ m) =
    let (rest, n) = delete_loop cutoff m in
    if before t.expires_at cutoff then (rest, n + 1) else ((id, t) ∷ rest, n)

unfoldable pub delete_expired : Time → Update PasswordResetStore ℕ
unfolding delete_loop
delete_expired cutoff s = let (m, n) = delete_loop cutoff s.tokens in (ok n, record { tokens = m })
