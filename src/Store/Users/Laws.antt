-- ===== src/Store/Users/Laws.antt =====
-- What SetPassword and UpdateUser leave of the password hashes.
use authserver_go.Base.{String, ◌≡◌, some, string_eq, arith, Option-cases, inl, inr}
use authserver_go.Base.Assoc.{lookup, lookup-insert_self}
use authserver_go.Domain.Entities.{User}
use authserver_go.Store.Users.{Bcrypt, UserStore, done, set_password, update_user}

pub update_user-hashes : (u : User) (s : UserStore) → (update_user u s).1.hashes ≡ s.hashes
unfolding update_user
update_user-hashes u s = ground arith

-- A password that has been set is the one whose hash is stored.
pub set_password-hash :
    (b : Bcrypt) (id password : String) (s : UserStore)
    → (set_password b id password s).0 ≡ done
    → (hash : String) × (b.generate password ≡ some hash)
      × (lookup id (set_password b id password s).1.hashes ≡ some hash)
unfolding set_password
set_password-hash b id password s e = elim (Option-cases (b.generate password)) [
  | inl long ↦ absurd (ground (arith, e, long))
  | inr (hash, made) ↦ (
    hash,
    made,
    elim (Option-cases (lookup id s.users)) [
      | inl unknown ↦ absurd (ground (arith, e, made, unknown))
      | inr (u, known) ↦ ground (arith, e, made, known, lookup-insert_self id hash s.hashes)
    ],
  )
]
